-- ===== src/Models.antt =====
-- src/asset_store_core/models.py: the records that the registry keeps. A time is a number of
-- microseconds since the epoch, as `datetime` counts; a `frozenset` is a list without its order.
use mathlib.Core.List.{append_assoc}
use prototype_cache.Prelude.{
  refl, ◌++◌, contains-append, ℕ, String, Bool, true, false, ◌&&◌, Option, none, some, List, [],
  ◌∷◌, nat_eq, str_eq, contains, eq_iff, arith, ◌≡◌,
}
use prototype_cache.Prelude.Int.{ℤ}
use prototype_cache.Prelude.Dict.{Dict, lookup, text_key}

pub data AssetState : Type 0 where
  pending available expired deleted : AssetState

abbrev pub state_eq : AssetState → AssetState → Bool
state_eq pending pending = true
state_eq available available = true
state_eq expired expired = true
state_eq deleted deleted = true
state_eq _ _ = false

pub data EvictionPolicy : Type 0 where
  inherit exempt : EvictionPolicy

-- A finite `float` is the rational number `numerator / denominator` that it stands for.
pub record Ratio : Type 0 where
  pub numerator : ℤ
  pub denominator : ℕ

pub record AliasBinding : Type 0 where
  pub space : String
  pub alias : String
  pub asset_id : Option String
  pub mutable : Bool
  pub previous_asset_id : Option String
  pub created_at : ℕ
  pub updated_at : ℕ
  pub created_by_service_id : String

pub record Asset : Type 0 where
  pub asset_id : String
  pub space : String
  pub partition_id : String
  pub storage_key : String
  pub state : AssetState
  pub aliases : List String
  pub mime : Option String
  pub size_bytes : Option ℕ
  pub reserved_bytes : Option ℕ
  pub checksum_algo : String
  pub checksum : Option String
  pub annotations : Dict String String
  pub created_at : ℕ
  pub updated_at : ℕ
  pub expires_at : Option ℕ
  pub expired_at : Option ℕ
  pub last_read_at : Option ℕ
  pub read_count : ℕ
  pub payload_deleted_at : Option ℕ
  pub owner_service_id : String
  pub eviction_policy : EvictionPolicy

-- `Asset.is_resolvable`
unfoldable pub is_resolvable : Asset → Bool
is_resolvable a = state_eq a.state available

abbrev opt_eq {ℓ} : {A : Type ℓ} → (A → A → Bool) → Option A → Option A → Bool
opt_eq eq none none = true
opt_eq eq (some a) (some b) = eq a b
opt_eq eq _ _ = false

abbrev pub policy_eq : EvictionPolicy → EvictionPolicy → Bool
policy_eq inherit inherit = true
policy_eq exempt exempt = true
policy_eq _ _ = false

-- every member of the first list is one of the second
abbrev pub all_in : List String → List String → Bool
all_in [] ys = true
all_in (x ∷ xs) ys = contains x ys && all_in xs ys

-- every entry of the first dictionary is one of the second
abbrev pub entries_in : Dict String String → Dict String String → Bool
entries_in [] e = true
entries_in ((k, v) ∷ d) e = opt_eq str_eq (lookup k e) (some v) && entries_in d e

-- The fields on which the accounts of the registry and the place of the bytes depend.
unfoldable pub same_account : Asset → Asset → Bool
same_account a b =
    str_eq a.asset_id b.asset_id
    && str_eq a.space b.space
    && str_eq a.partition_id b.partition_id
    && str_eq a.storage_key b.storage_key
    && state_eq a.state b.state
    && opt_eq nat_eq a.size_bytes b.size_bytes
    && opt_eq nat_eq a.reserved_bytes b.reserved_bytes
    && opt_eq nat_eq a.payload_deleted_at b.payload_deleted_at

unfoldable pub same_description : Asset → Asset → Bool
same_description a b =
    opt_eq str_eq a.mime b.mime
    && str_eq a.checksum_algo b.checksum_algo
    && opt_eq str_eq a.checksum b.checksum
    && entries_in a.annotations b.annotations
    && entries_in b.annotations a.annotations
    && str_eq a.owner_service_id b.owner_service_id
    && policy_eq a.eviction_policy b.eviction_policy

unfoldable pub same_times : Asset → Asset → Bool
same_times a b =
    nat_eq a.created_at b.created_at
    && nat_eq a.updated_at b.updated_at
    && opt_eq nat_eq a.expires_at b.expires_at
    && opt_eq nat_eq a.expired_at b.expired_at
    && opt_eq nat_eq a.last_read_at b.last_read_at
    && nat_eq a.read_count b.read_count

-- `==` of two assets, which `@dataclass` derives from the fields
unfoldable pub asset_eq : Asset → Asset → Bool
unfolding same_account same_description same_times
asset_eq a b =
    same_account a b
    && (all_in a.aliases b.aliases && all_in b.aliases a.aliases)
    && same_description a b
    && same_times a b

-- A value of an audit event's `before` or `after`, before `str()` turns it into text.
pub data Detail : Type 0 where
  text : String → Detail
  number : Option ℕ → Detail
  flag : Bool → Detail
  time : Option ℕ → Detail
  state : AssetState → Detail
  policy : EvictionPolicy → Detail

pub record AuditEvent : Type 0 where
  pub action : String
  pub target : String
  pub caller_service_id : String
  pub outcome : String
  pub before : Dict String Detail
  pub after : Dict String Detail
  pub ts : ℕ

pub record PartitionQuota : Type 0 where
  pub space : String
  pub partition_id : String
  pub quota_bytes : Option ℕ
  pub quota_asset_count : Option ℕ
  pub used_bytes : ℕ
  pub used_asset_count : ℕ
  pub eviction_sweep_enabled : Bool

pub record BucketQuota : Type 0 where
  pub space : String
  pub quota_bytes : Option ℕ
  pub used_bytes : ℕ
  pub warn_threshold : Ratio
  pub hard_ceiling : Ratio

-- What equality of these fields gives.
pub record IsSameAccount (a b : Asset) : Type 0 where
  pub asset_id : a.asset_id ≡ b.asset_id
  pub space : a.space ≡ b.space
  pub partition_id : a.partition_id ≡ b.partition_id
  pub storage_key : a.storage_key ≡ b.storage_key
  pub state : a.state ≡ b.state
  pub size_bytes : a.size_bytes ≡ b.size_bytes
  pub payload_deleted_at : a.payload_deleted_at ≡ b.payload_deleted_at

opt_nat_eq : (x y : Option ℕ) → opt_eq nat_eq x y ≡ true → x ≡ y
opt_nat_eq x y h = ground arith

pub same_account_lem : (a b : Asset) → same_account a b ≡ true → IsSameAccount a b
unfolding same_account
same_account_lem a b h = record {
  asset_id = ground (arith, eq_iff a.asset_id b.asset_id);
  space = ground (arith, eq_iff a.space b.space);
  partition_id = ground (arith, eq_iff a.partition_id b.partition_id);
  storage_key = ground (arith, eq_iff a.storage_key b.storage_key);
  state = ground arith;
  size_bytes = opt_nat_eq a.size_bytes b.size_bytes (ground arith);
  payload_deleted_at = opt_nat_eq a.payload_deleted_at b.payload_deleted_at (ground arith);
}

opt_nat_refl : (x : Option ℕ) → opt_eq nat_eq x x ≡ true
opt_nat_refl none = refl
opt_nat_refl (some n) = ground arith

opt_str_refl : (x : Option String) → opt_eq str_eq x x ≡ true
opt_str_refl none = refl
opt_str_refl (some t) = (eq_iff t t).1 refl

all_in-append : (before xs : List String) → all_in xs (before ++ xs) ≡ true
all_in-append before [] = refl
all_in-append before (x ∷ xs) = ground (
  arith,
  contains-append x before (x ∷ xs),
  eq_iff x x,
  all_in-append (before ++ (x ∷ [])) xs,
  append_assoc before (x ∷ []) xs,
)

-- An asset equals itself, where its annotations do, as every dictionary without a key twice does.
pub asset_eq_entries :
    (a : Asset) → entries_in a.annotations a.annotations ≡ true → asset_eq a a ≡ true
unfolding asset_eq
asset_eq_entries a whole = ground (
  arith,
  eq_iff a.asset_id a.asset_id,
  eq_iff a.space a.space,
  eq_iff a.partition_id a.partition_id,
  opt_nat_refl a.size_bytes,
  opt_nat_refl a.reserved_bytes,
  opt_nat_refl a.payload_deleted_at,
  all_in-append [] a.aliases,
  eq_iff a.storage_key a.storage_key,
  opt_str_refl a.mime,
  eq_iff a.checksum_algo a.checksum_algo,
  opt_str_refl a.checksum,
  eq_iff a.owner_service_id a.owner_service_id,
  opt_nat_refl a.expires_at,
  opt_nat_refl a.expired_at,
  opt_nat_refl a.last_read_at,
)

pub asset_eq_refl : (a : Asset) → a.annotations ≡ [] → asset_eq a a ≡ true
asset_eq_refl a plain = asset_eq_entries a (ground arith)
