-- ===== src/Registry/Quota.antt =====
-- src/asset_store_core/registry.py: reading the quota counters and the ceilings of an upload
-- (`_partition_quota`, `_bucket_quota`, `_enforce_quota`, `reserved_upload_bytes`).
use prototype_cache.Prelude.{
  ℕ, ◌+◌, String, Bool, true, false, not, ◌&&◌, Option, none, some, List, ltb, length, is_some,
  get_or, keep, sum_of, contains, str_eq, [], ◌∷◌,
}
use prototype_cache.Prelude.Int.{pos}
use prototype_cache.Prelude.Dict.{lookup, values, text_key, pair_key}
use prototype_cache.Errors.{Result, ok, quota_exceeded, QuotaScope, raise_if, ◌>>=◌, ◌>>◌}
use prototype_cache.Models.{Asset, pending, state_eq, PartitionQuota, BucketQuota, Ratio}
use prototype_cache.Env.{Env}
use prototype_cache.Paths.{normalize_space, normalize_partition_id}
use prototype_cache.Retention.{capacity_limits, enforce_capacity}
use prototype_cache.Registry.State.{Registry}

-- `_PARTITION_HARD_RATIO`
abbrev pub partition_hard_ratio : Ratio
partition_hard_ratio = record { numerator = pos 105; denominator = 100 }

-- `_SWEEP_DEFAULT_SPACES`
abbrev pub sweep_default_spaces : List String
sweep_default_spaces = "cache" ∷ "tmp" ∷ []

abbrev pub new_partition_quota : String → String → PartitionQuota
new_partition_quota space partition_id = record {
  space = space;
  partition_id = partition_id;
  quota_bytes = none;
  quota_asset_count = none;
  used_bytes = 0;
  used_asset_count = 0;
  eviction_sweep_enabled = contains space sweep_default_spaces;
}

abbrev pub new_bucket_quota : String → BucketQuota
new_bucket_quota space = record {
  space = space;
  quota_bytes = none;
  used_bytes = 0;
  warn_threshold = record { numerator = pos 80; denominator = 100 };
  hard_ceiling = record { numerator = pos 1; denominator = 1 };
}

-- `_partition_quota`, `get_partition_quota`
unfoldable pub partition_quota : Registry → String → String → Result PartitionQuota
partition_quota s space partition_id = do
  norm_space ← normalize_space space
  norm_partition ← normalize_partition_id partition_id
  ok (
      get_or (lookup (norm_space, norm_partition) s.partition_quotas)
        (new_partition_quota norm_space norm_partition))

-- `_bucket_quota`, `get_bucket_quota`
unfoldable pub bucket_quota : Registry → String → Result BucketQuota
bucket_quota s space = do
  norm_space ← normalize_space space
  ok (get_or (lookup norm_space s.bucket_quotas) (new_bucket_quota norm_space))

-- `a.asset_id != exclude_asset_id`, where `None` excludes nothing
abbrev is_excluded : Option String → Asset → Bool
is_excluded none a = false
is_excluded (some asset_id) a = str_eq a.asset_id asset_id

-- the uploads of a bucket that hold a reservation
unfoldable pub is_pending_in : String → Option String → Asset → Bool
is_pending_in space exclude a =
    str_eq a.space space
    && state_eq a.state pending
    && is_some a.reserved_bytes
    && not (is_excluded exclude a)

abbrev pub reserved : Asset → ℕ
reserved a = get_or a.reserved_bytes 0

-- what an asset takes in the object store, or is about to
abbrev pub physical_size : Asset → ℕ
physical_size a = elim a.size_bytes [ none ↦ reserved a | some n ↦ n ]

unfoldable pub is_physical_in : String → Option String → Asset → Bool
is_physical_in space exclude a =
    str_eq a.space space && not (is_some a.payload_deleted_at) && not (is_excluded exclude a)

unfoldable pub pending_in : Registry → String → Option String → List Asset
unfolding is_pending_in
pending_in s space exclude = keep (is_pending_in space exclude) (values s.assets)

unfoldable pub pending_under : Registry → String → String → Option String → List Asset
unfolding pending_in
pending_under s space partition_id exclude =
    keep (λ a. str_eq a.partition_id partition_id) (pending_in s space exclude)

abbrev pub over_bytes : Env → ℕ → Option ℕ → Ratio → Bool
over_bytes env bytes none ratio = false
over_bytes env bytes (some quota) ratio = env.reaches bytes quota ratio

abbrev pub over_count : ℕ → Option ℕ → Bool
over_count count none = false
over_count count (some quota) = ltb quota count

-- `if space in capacity_limits(): ...`
unfoldable pub enforce_physical : Env → Registry → String → ℕ → Option String → Result (Unit {0})
unfolding is_physical_in enforce_capacity
enforce_physical env s space new_bytes exclude = do
  limits ← capacity_limits env
  elim (lookup space limits) [
    | none ↦ ok tt
    | some _ ↦
        enforce_capacity env space
          (sum_of physical_size (keep (is_physical_in space exclude) (values s.assets)) + new_bytes)
  ]

-- `_enforce_quota`
unfoldable pub enforce_quota :
    Env → Registry → String → String → ℕ → Option String → Result (Unit {0})
unfolding partition_quota bucket_quota pending_in pending_under enforce_physical
enforce_quota env s space partition_id new_bytes exclude = do
  let waiting = pending_under s space partition_id exclude
  pq ← partition_quota s space partition_id
  raise_if
      (over_bytes env (pq.used_bytes + sum_of reserved waiting + new_bytes) pq.quota_bytes
        partition_hard_ratio)
      (quota_exceeded QuotaScope.partition)
  raise_if (over_count (pq.used_asset_count + length waiting + 1) pq.quota_asset_count)
      (quota_exceeded QuotaScope.partition)
  enforce_physical env s space new_bytes exclude
  bq ← bucket_quota s space
  raise_if
      (over_bytes env (bq.used_bytes + sum_of reserved (pending_in s space exclude) + new_bytes)
        bq.quota_bytes bq.hard_ceiling)
      (quota_exceeded QuotaScope.bucket)

-- `reserved_upload_bytes`; a generator expression normalises the bucket at each asset
unfoldable pub reserved_from : String → List Asset → Result ℕ
reserved_from space [] = ok 0
reserved_from space (a ∷ rest) = do
  norm_space ← normalize_space space
  others ← reserved_from space rest
  ok (elim (str_eq a.space norm_space && not (is_some a.payload_deleted_at)) [
    | true ↦ reserved a + others
    | false ↦ others
  ])

unfoldable pub reserved_upload_bytes : Registry → String → Result ℕ
unfolding reserved_from
reserved_upload_bytes s space = reserved_from space (values s.assets)
