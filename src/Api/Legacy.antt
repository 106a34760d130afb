-- ===== src/Api/Legacy.antt =====
-- The endpoints that `require_legacy_admin` guards, each with the arguments of its body.
use prototype_cache.Prelude.{
  ℕ, String, Bool, true, not, ◌&&◌, Option, none, some, List, leb, str_eq, keep, drop, length, ◌-◌,
}
use prototype_cache.Prelude.Int.{ℤ, pos}
use prototype_cache.Prelude.Dict.{Dict}
use prototype_cache.Errors.{request_validation}
use prototype_cache.Exec.{Exec, pure, raise_when, ◌>>=◌, ◌>>◌}
use prototype_cache.Models.{EvictionPolicy, Ratio, AuditEvent}
use prototype_cache.Registry.Quota.{partition_quota, bucket_quota}
use prototype_cache.Registry.Counters.{set_partition_quota, set_bucket_quota}
use prototype_cache.Registry.Lifecycle.{
  update_annotations, expire_asset, delete_asset, set_eviction_policy,
}
use prototype_cache.Registry.Aliases.{detach_alias, detach_mutable_alias, rebind_alias}
use prototype_cache.Api.State.{Service, App, in_registry}
use prototype_cache.Api.Identity.{require_legacy_admin}
use prototype_cache.Api.Schemas.{
  AssetOut, from_asset, AliasBindingOut, from_binding, PartitionQuotaOut, from_partition_quota,
  BucketQuotaOut, from_bucket_quota,
}

-- `x is None or y == x`
abbrev is_asked : Option String → String → Bool
is_asked none y = true
is_asked (some x) y = str_eq y x

-- a number that `Field(ge=0)` has passed
abbrev pub whole : Option ℕ → Option ℤ
whole none = none
whole (some n) = some (pos n)

module _ {S : Type 0} (service : Service S) (authorization : String) where
  unfoldable pub annotate_asset :
      String → Dict String String → String → Bool → Exec (App S) AssetOut
  annotate_asset asset_id patch caller_service_id overwrite = do
    caller ← require_legacy_admin service authorization (some caller_service_id)
    asset ← in_registry (update_annotations service.env asset_id patch caller_service_id overwrite)
    pure (from_asset asset)

  unfoldable pub expire : String → String → Exec (App S) AssetOut
  expire asset_id caller_service_id = do
    caller ← require_legacy_admin service authorization (some caller_service_id)
    asset ← in_registry (expire_asset service.env asset_id caller_service_id)
    pure (from_asset asset)

  unfoldable pub delete : String → String → Exec (App S) AssetOut
  delete asset_id caller_service_id = do
    caller ← require_legacy_admin service authorization (some caller_service_id)
    asset ← in_registry (delete_asset service.env asset_id caller_service_id)
    pure (from_asset asset)

  unfoldable pub detach : String → String → String → Exec (App S) (Unit {0})
  detach space alias caller_service_id = do
    caller ← require_legacy_admin service authorization (some caller_service_id)
    in_registry (detach_alias service.env space alias caller_service_id)

  unfoldable pub detach_mutable : String → String → String → Exec (App S) AliasBindingOut
  detach_mutable space alias caller_service_id = do
    caller ← require_legacy_admin service authorization (some caller_service_id)
    binding ← in_registry (detach_mutable_alias service.env space alias caller_service_id)
    pure (from_binding binding)

  unfoldable pub rebind : String → String → String → String → Exec (App S) AliasBindingOut
  rebind space alias new_asset_id caller_service_id = do
    caller ← require_legacy_admin service authorization (some caller_service_id)
    binding ← in_registry (rebind_alias service.env space alias new_asset_id caller_service_id)
    pure (from_binding binding)

  unfoldable pub change_eviction_policy : String → EvictionPolicy → String → Exec (App S) AssetOut
  change_eviction_policy asset_id eviction_policy caller_service_id = do
    caller ← require_legacy_admin service authorization (some caller_service_id)
    asset ← in_registry (set_eviction_policy service.env asset_id eviction_policy caller_service_id)
    pure (from_asset asset)

  -- `stated` is the `caller_service_id` that the body may name, though the schema has none
  unfoldable pub put_partition_quota :
      Option String
      → String
      → String
      → Option ℕ
      → Option ℕ
      → Option Bool
      → Exec (App S) PartitionQuotaOut
  put_partition_quota stated space partition_id quota_bytes quota_asset_count sweep = do
    caller ← require_legacy_admin service authorization stated
    quota ← in_registry (
        set_partition_quota service.env space partition_id (whole quota_bytes)
          (whole quota_asset_count) sweep "admin")
    pure (from_partition_quota quota)

  unfoldable pub read_partition_quota : String → String → Exec (App S) PartitionQuotaOut
  read_partition_quota space partition_id = do
    caller ← require_legacy_admin service authorization none
    quota ← in_registry λ s. (partition_quota s space partition_id, s)
    pure (from_partition_quota quota)

  unfoldable pub put_bucket_quota :
      Option String → String → Option ℕ → Ratio → Ratio → Exec (App S) BucketQuotaOut
  put_bucket_quota stated space quota_bytes warn_threshold hard_ceiling = do
    caller ← require_legacy_admin service authorization stated
    quota ← in_registry (set_bucket_quota space (whole quota_bytes) warn_threshold hard_ceiling)
    pure (from_bucket_quota quota)

  unfoldable pub read_bucket_quota : String → Exec (App S) BucketQuotaOut
  read_bucket_quota space = do
    caller ← require_legacy_admin service authorization none
    quota ← in_registry λ s. (bucket_quota s space, s)
    pure (from_bucket_quota quota)

  unfoldable pub list_audit :
      Option String → Option String → Option String → ℕ → Exec (App S) (List AuditEvent)
  list_audit action target caller_service_id limit = do
    caller ← require_legacy_admin service authorization none
    raise_when (not (leb 1 limit && leb limit 1000)) request_validation
    events ← in_registry λ s. pure s.audit_events s
    let matched =
        keep
          (λ (e : AuditEvent).
            is_asked action e.action
            && is_asked target e.target
            && is_asked caller_service_id e.caller_service_id)
          events
    pure (drop (length matched - limit) matched)
