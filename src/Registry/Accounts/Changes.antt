-- ===== src/Registry/Accounts/Changes.antt =====
-- The changes that the operations of the registry make to its assets and counters, as a relation
-- between two states: what an operation does is a sequence of these.
use prototype_cache.Prelude.{String, ◌≡◌, ◌≢◌, Bool, true, false, ◌⊎◌, none, some}
use prototype_cache.Prelude.Dict.{lookup, insert, text_key, pair_key}
use prototype_cache.Errors.{ok}
use prototype_cache.Models.{
  Asset, AssetState, pending, available, expired, deleted, PartitionQuota, BucketQuota,
}
use prototype_cache.Paths.{normalize_space, normalize_partition_id}
use prototype_cache.Registry.State.{Registry}
use prototype_cache.Registry.Accounts.Effects.{
  charge_partition, charge_bucket, refund_partition, refund_bucket, current_partition,
  current_bucket,
}
use prototype_cache.Registry.Accounts.Totals.{size_of}

-- The names of an asset normalise.
pub record HasNames (a : Asset) : Type 0 where
  pub b : String
  pub q : String
  pub bucket : normalize_space a.space ≡ ok b
  pub partition : normalize_partition_id a.partition_id ≡ ok q

-- Two versions of one asset.
pub record SameIdentity (a b : Asset) : Type 0 where
  pub asset_id : b.asset_id ≡ a.asset_id
  pub space : b.space ≡ a.space
  pub partition_id : b.partition_id ≡ a.partition_id
  pub storage_key : b.storage_key ≡ a.storage_key

-- Versions that the accounts do not tell apart.
pub record SameCharge (a b : Asset) : Type 0 where
  pub identity : SameIdentity a b
  pub state : b.state ≡ a.state
  pub size_bytes : b.size_bytes ≡ a.size_bytes
  pub payload_deleted_at : b.payload_deleted_at ≡ a.payload_deleted_at

abbrev pub SameQuotas : Registry → Registry → Type 0
SameQuotas s t = (t.partition_quotas ≡ s.partition_quotas) × (t.bucket_quotas ≡ s.bucket_quotas)

-- From `pending` by a commit, from `expired` by a restored deadline.
abbrev pub can_charge : AssetState → Bool
can_charge pending = true
can_charge expired = true
can_charge _ = false

-- Where an available asset goes.
abbrev pub is_gone : AssetState → Bool
is_gone expired = true
is_gone deleted = true
is_gone _ = false

-- The ways of an asset that is not available to one that is not.
abbrev pub can_lapse : AssetState → AssetState → Bool
can_lapse pending expired = true
can_lapse _ deleted = true
can_lapse _ _ = false

-- A version of the asset `a`, which stands under `id`, is written.
pub record Write (s t : Registry) (id : String) (a b : Asset) : Type 0 where
  pub found : lookup id s.assets ≡ some a
  pub identity : SameIdentity a b
  pub assets : t.assets ≡ insert id b s.assets

pub data Step (s t : Registry) : Type 0 where
  quiet : t.assets ≡ s.assets → SameQuotas s t → Step s t
  reserve :
      (id : String) (b : Asset)
      → lookup id s.assets ≡ none
      → b.asset_id ≡ id
      → b.state ≡ pending
      → b.payload_deleted_at ≡ none
      → HasNames b
      → t.assets ≡ insert id b s.assets
      → SameQuotas s t
      → Step s t
  edit :
      (id : String) (a b : Asset)
      → lookup id s.assets ≡ some a
      → SameCharge a b
      → t.assets ≡ insert id b s.assets
      → SameQuotas s t
      → Step s t
  charge :
      (id : String) (a b : Asset)
      → Write s t id a b
      → can_charge a.state ≡ true
      → b.state ≡ available
      → b.payload_deleted_at ≡ a.payload_deleted_at
      → (names : HasNames a)
      → t.partition_quotas ≡ charge_partition (size_of b) (names.b, names.q) s.partition_quotas
      → t.bucket_quotas ≡ charge_bucket (size_of b) names.b s.bucket_quotas
      → Step s t
  refund :
      (id : String) (a b : Asset)
      → Write s t id a b
      → a.state ≡ available
      → is_gone b.state ≡ true
      → b.payload_deleted_at ≡ a.payload_deleted_at
      → (names : HasNames a)
      → t.partition_quotas ≡ refund_partition (size_of a) (names.b, names.q) s.partition_quotas
      → t.bucket_quotas ≡ refund_bucket (size_of a) names.b s.bucket_quotas
      → Step s t
  lapse :
      (id : String) (a b : Asset)
      → Write s t id a b
      → a.state ≢ available
      → can_lapse a.state b.state ≡ true
      → (b.payload_deleted_at ≡ a.payload_deleted_at) ⊎ (b.state ≡ deleted)
      → SameQuotas s t
      → Step s t
  limit_partition :
      (space partition_id : String) (pq : PartitionQuota)
      → (pq.space ≡ space) × (pq.partition_id ≡ partition_id)
      → pq.used_bytes ≡ (current_partition s.partition_quotas (space, partition_id)).used_bytes
      → pq.used_asset_count
        ≡ (current_partition s.partition_quotas (space, partition_id)).used_asset_count
      → t.assets ≡ s.assets
      → t.partition_quotas ≡ insert (space, partition_id) pq s.partition_quotas
      → t.bucket_quotas ≡ s.bucket_quotas
      → Step s t
  limit_bucket :
      (space : String) (bq : BucketQuota)
      → bq.space ≡ space
      → bq.used_bytes ≡ (current_bucket s.bucket_quotas space).used_bytes
      → t.assets ≡ s.assets
      → t.partition_quotas ≡ s.partition_quotas
      → t.bucket_quotas ≡ insert space bq s.bucket_quotas
      → Step s t

-- Any number of changes.
pub data Steps (s : Registry) : Registry → Type 0 where
  here : Steps s s
  next : {t u : Registry} → Steps s t → Step t u → Steps s u

pub Steps-trans : {s t u : Registry} → Steps s t → Steps t u → Steps s u
Steps-trans h here = h
Steps-trans h (next k st) = next (Steps-trans h k) st
