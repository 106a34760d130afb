-- ===== src/Api/Schemas.antt =====
-- src/asset_store_core/api/schemas.py: what the handlers return.
use prototype_cache.Prelude.{ℕ, String, Bool, List, Option, some}
use prototype_cache.Prelude.Dict.{Dict}
use prototype_cache.Prelude.Sort.{sort_by, text_before}
use prototype_cache.Models.{
  Asset, AssetState, pending, available, expired, deleted, EvictionPolicy, inherit, exempt,
  AliasBinding, PartitionQuota, BucketQuota, Ratio,
}

-- `AssetState.value` and `EvictionPolicy.value`
abbrev pub state_value : AssetState → String
state_value pending = "pending"
state_value available = "available"
state_value expired = "expired"
state_value deleted = "deleted"

abbrev pub policy_value : EvictionPolicy → String
policy_value inherit = "inherit"
policy_value exempt = "exempt"

pub record AssetOut : Type 0 where
  pub asset_id : String
  pub space : String
  pub partition_id : String
  -- `none` where it is left out
  pub storage_key : Option String
  pub state : String
  pub aliases : List String
  pub mime : Option String
  pub size_bytes : Option ℕ
  pub checksum : Option String
  pub annotations : Dict String String
  pub created_at : ℕ
  pub updated_at : ℕ
  pub expires_at : Option ℕ
  pub expired_at : Option ℕ
  pub last_read_at : Option ℕ
  pub read_count : ℕ
  pub payload_deleted_at : Option ℕ
  pub owner_service_id : String
  pub eviction_policy : String

unfoldable pub from_asset : Asset → AssetOut
from_asset asset = record {
  asset_id = asset.asset_id;
  space = asset.space;
  partition_id = asset.partition_id;
  storage_key = some asset.storage_key;
  state = state_value asset.state;
  aliases = sort_by text_before asset.aliases;
  mime = asset.mime;
  size_bytes = asset.size_bytes;
  checksum = asset.checksum;
  annotations = asset.annotations;
  created_at = asset.created_at;
  updated_at = asset.updated_at;
  expires_at = asset.expires_at;
  expired_at = asset.expired_at;
  last_read_at = asset.last_read_at;
  read_count = asset.read_count;
  payload_deleted_at = asset.payload_deleted_at;
  owner_service_id = asset.owner_service_id;
  eviction_policy = policy_value asset.eviction_policy;
}

pub record CapabilityOut : Type 0 where
  pub capability_id : String
  pub operation : String
  pub scope_prefix : String
  pub caller_service_id : String
  pub expires_at : ℕ
  pub single_use : Bool

pub record PresignedUrlOut : Type 0 where
  pub alias : String
  pub asset_id : String
  pub url : String
  pub expires_in : ℕ
  pub expires_at : ℕ
  pub size_bytes : Option ℕ
  pub checksum : Option String

pub record AliasBindingOut : Type 0 where
  pub space : String
  pub alias : String
  pub asset_id : Option String
  pub mutable : Bool
  pub previous_asset_id : Option String
  pub updated_at : ℕ

unfoldable pub from_binding : AliasBinding → AliasBindingOut
from_binding binding = record {
  space = binding.space;
  alias = binding.alias;
  asset_id = binding.asset_id;
  mutable = binding.mutable;
  previous_asset_id = binding.previous_asset_id;
  updated_at = binding.updated_at;
}

pub record PartitionQuotaOut : Type 0 where
  pub space : String
  pub partition_id : String
  pub quota_bytes : Option ℕ
  pub quota_asset_count : Option ℕ
  pub used_bytes : ℕ
  pub used_asset_count : ℕ
  pub eviction_sweep_enabled : Bool

unfoldable pub from_partition_quota : PartitionQuota → PartitionQuotaOut
from_partition_quota quota = record {
  space = quota.space;
  partition_id = quota.partition_id;
  quota_bytes = quota.quota_bytes;
  quota_asset_count = quota.quota_asset_count;
  used_bytes = quota.used_bytes;
  used_asset_count = quota.used_asset_count;
  eviction_sweep_enabled = quota.eviction_sweep_enabled;
}

pub record BucketQuotaOut : Type 0 where
  pub space : String
  pub quota_bytes : Option ℕ
  pub used_bytes : ℕ
  pub warn_threshold : Ratio
  pub hard_ceiling : Ratio

unfoldable pub from_bucket_quota : BucketQuota → BucketQuotaOut
from_bucket_quota quota = record {
  space = quota.space;
  quota_bytes = quota.quota_bytes;
  used_bytes = quota.used_bytes;
  warn_threshold = quota.warn_threshold;
  hard_ceiling = quota.hard_ceiling;
}
