-- ===== src/Registry/Counters.antt =====
-- src/asset_store_core/registry.py: the changes of the quota counters (`_acquire_quota`,
-- `_release_quota`, `set_partition_quota`, `set_bucket_quota`).
use prototype_cache.Prelude.{
  ℕ, ◌+◌, ◌-◌, String, Bool, true, false, Option, none, some, [], ◌∷◌, get_or,
}
use prototype_cache.Prelude.Int.{ℤ, to_ℕ?}
use prototype_cache.Prelude.Text.{slashed}
use prototype_cache.Prelude.Dict.{insert, text_key, pair_key}
use prototype_cache.Errors.{Result, ok, err, validation}
use prototype_cache.Exec.{Exec, pure, lift, modify, ◌>>=◌, ◌>>◌}
use prototype_cache.Models.{
  Asset, available, state_eq, PartitionQuota, BucketQuota, Ratio, number, flag,
}
use prototype_cache.Env.{Env}
use prototype_cache.Registry.State.{Registry, audit}
use prototype_cache.Registry.Quota.{partition_quota, bucket_quota}

-- `self._partition_quotas[(pq.space, pq.partition_id)] = pq`
abbrev pub store_partition_quota : PartitionQuota → Exec Registry (Unit {0})
store_partition_quota pq =
    modify
      λ s. record s { partition_quotas = insert (pq.space, pq.partition_id) pq s.partition_quotas }

-- `self._bucket_quotas[bq.space] = bq`
abbrev pub store_bucket_quota : BucketQuota → Exec Registry (Unit {0})
store_bucket_quota bq = modify λ s. record s { bucket_quotas = insert bq.space bq s.bucket_quotas }

-- `_acquire_quota`
unfoldable pub acquire_quota : String → String → ℕ → Exec Registry (Unit {0})
acquire_quota space partition_id nbytes = do
  pq ← λ s. (partition_quota s space partition_id, s)
  store_partition_quota (record pq {
    used_bytes = pq.used_bytes + nbytes;
    used_asset_count = pq.used_asset_count + 1;
  })
  bq ← λ s. (bucket_quota s space, s)
  store_bucket_quota (record bq { used_bytes = bq.used_bytes + nbytes })

-- the decrements of `_release_quota`; `max(0, a - b)` is the subtraction of ℕ
unfoldable pub return_quota : String → String → ℕ → Exec Registry (Unit {0})
return_quota space partition_id nbytes = do
  pq ← λ s. (partition_quota s space partition_id, s)
  store_partition_quota (record pq {
    used_bytes = pq.used_bytes - nbytes;
    used_asset_count = pq.used_asset_count - 1;
  })
  bq ← λ s. (bucket_quota s space, s)
  store_bucket_quota (record bq { used_bytes = bq.used_bytes - nbytes })

-- `_release_quota`
unfoldable pub release_quota : Asset → Exec Registry (Unit {0})
unfolding return_quota
release_quota asset = elim (state_eq asset.state available) [
  | true ↦ return_quota asset.space asset.partition_id (get_or asset.size_bytes 0)
  | false ↦ pure tt
]

-- `if quota is not None and quota < 0: raise ValidationError`
abbrev pub limit_of : Option ℤ → Result (Option ℕ)
limit_of none = ok none
limit_of (some q) = elim (to_ℕ? q) [ none ↦ err validation | some n ↦ ok (some n) ]

unfoldable pub set_partition_quota :
    Env
    → String
    → String
    → Option ℤ
    → Option ℤ
    → Option Bool
    → String
    → Exec Registry PartitionQuota
set_partition_quota env space partition_id quota_bytes quota_asset_count sweep caller = do
  bytes ← lift (limit_of quota_bytes)
  count ← lift (limit_of quota_asset_count)
  current ← λ s. (partition_quota s space partition_id, s)
  let enabled = get_or sweep current.eviction_sweep_enabled
  let updated : PartitionQuota = record current {
    quota_bytes = bytes;
    quota_asset_count = count;
    eviction_sweep_enabled = enabled;
  }
  store_partition_quota updated
  audit env "admin.quota_set" (slashed updated.space updated.partition_id) caller "success"
      (("quota_bytes", number current.quota_bytes)
        ∷ ("quota_asset_count", number current.quota_asset_count)
        ∷ ("eviction_sweep_enabled", flag current.eviction_sweep_enabled)
        ∷ [])
      (("quota_bytes", number bytes)
        ∷ ("quota_asset_count", number count)
        ∷ ("eviction_sweep_enabled", flag enabled)
        ∷ [])
  pure updated

unfoldable pub set_bucket_quota : String → Option ℤ → Ratio → Ratio → Exec Registry BucketQuota
set_bucket_quota space quota_bytes warn_threshold hard_ceiling = do
  bytes ← lift (limit_of quota_bytes)
  current ← λ s. (bucket_quota s space, s)
  let updated : BucketQuota = record current {
    quota_bytes = bytes;
    warn_threshold = warn_threshold;
    hard_ceiling = hard_ceiling;
  }
  store_bucket_quota updated
  pure updated
