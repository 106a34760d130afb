-- ===== src/Api/Serving/Admins.antt =====
-- The endpoints that `require_legacy_admin` guards.
use prototype_cache.Prelude.{ℕ, String, Bool, Option, none, some}
use prototype_cache.Prelude.Dict.{Dict}
use prototype_cache.Errors.{ok}
use prototype_cache.Exec.{raise_when}
use prototype_cache.Models.{EvictionPolicy, Ratio}
use prototype_cache.Registry.Quota.{partition_quota, bucket_quota}
use prototype_cache.Registry.Counters.{set_partition_quota, set_bucket_quota}
use prototype_cache.Registry.Lifecycle.{
  update_annotations, expire_asset, delete_asset, set_eviction_policy,
}
use prototype_cache.Registry.Aliases.{detach_alias, detach_mutable_alias, rebind_alias}
use prototype_cache.Registry.Calls.{run}
use prototype_cache.Api.State.{Service, in_registry}
use prototype_cache.Api.Identity.{require_legacy_admin}
use prototype_cache.Api.Schemas.{from_asset, from_binding, from_partition_quota, from_bucket_quota}
use prototype_cache.Api.Legacy.{whole}
use prototype_cache.Api.Legacy as Legacy
use prototype_cache.Api.Serving.{
  Serves, Serves-bind, Serves-returning, Serves-in_registry, Serves-reading, Serves-legacy_admin,
  Serves-raise_when,
}

module _ {S : Type 0} (service : Service S) (authorization : String) where
  pub annotate_asset-Serves :
      (id : String) (patch : Dict String String) (caller : String) (overwrite : Bool)
      → Serves service (Legacy.annotate_asset service authorization id patch caller overwrite)
  unfolding Legacy.annotate_asset run
  annotate_asset-Serves id patch caller overwrite =
      Serves-bind service (require_legacy_admin service authorization (some caller)) _
        (Serves-legacy_admin service authorization (some caller))
        λ who.
          Serves-returning service
            (in_registry (update_annotations service.env id patch caller overwrite)) from_asset
            (Serves-in_registry service (update_annotations service.env id patch caller overwrite))

  pub expire-Serves :
      (id : String) (caller : String)
      → Serves service (Legacy.expire service authorization id caller)
  unfolding Legacy.expire run
  expire-Serves id caller =
      Serves-bind service (require_legacy_admin service authorization (some caller)) _
        (Serves-legacy_admin service authorization (some caller))
        λ who.
          Serves-returning service (in_registry (expire_asset service.env id caller)) from_asset
            (Serves-in_registry service (expire_asset service.env id caller))

  pub delete-Serves :
      (id : String) (caller : String)
      → Serves service (Legacy.delete service authorization id caller)
  unfolding Legacy.delete run
  delete-Serves id caller =
      Serves-bind service (require_legacy_admin service authorization (some caller)) _
        (Serves-legacy_admin service authorization (some caller))
        λ who.
          Serves-returning service (in_registry (delete_asset service.env id caller)) from_asset
            (Serves-in_registry service (delete_asset service.env id caller))

  pub detach-Serves :
      (space : String) (alias : String) (caller : String)
      → Serves service (Legacy.detach service authorization space alias caller)
  unfolding Legacy.detach run
  detach-Serves space alias caller =
      Serves-bind service (require_legacy_admin service authorization (some caller)) _
        (Serves-legacy_admin service authorization (some caller))
        λ who. Serves-in_registry service (detach_alias service.env space alias caller)

  pub detach_mutable-Serves :
      (space : String) (alias : String) (caller : String)
      → Serves service (Legacy.detach_mutable service authorization space alias caller)
  unfolding Legacy.detach_mutable run
  detach_mutable-Serves space alias caller =
      Serves-bind service (require_legacy_admin service authorization (some caller)) _
        (Serves-legacy_admin service authorization (some caller))
        λ who.
          Serves-returning service
            (in_registry (detach_mutable_alias service.env space alias caller)) from_binding
            (Serves-in_registry service (detach_mutable_alias service.env space alias caller))

  pub rebind-Serves :
      (space : String) (alias : String) (id : String) (caller : String)
      → Serves service (Legacy.rebind service authorization space alias id caller)
  unfolding Legacy.rebind run
  rebind-Serves space alias id caller =
      Serves-bind service (require_legacy_admin service authorization (some caller)) _
        (Serves-legacy_admin service authorization (some caller))
        λ who.
          Serves-returning service (in_registry (rebind_alias service.env space alias id caller))
            from_binding
            (Serves-in_registry service (rebind_alias service.env space alias id caller))

  pub change_eviction_policy-Serves :
      (id : String) (policy : EvictionPolicy) (caller : String)
      → Serves service (Legacy.change_eviction_policy service authorization id policy caller)
  unfolding Legacy.change_eviction_policy run
  change_eviction_policy-Serves id policy caller =
      Serves-bind service (require_legacy_admin service authorization (some caller)) _
        (Serves-legacy_admin service authorization (some caller))
        λ who.
          Serves-returning service (in_registry (set_eviction_policy service.env id policy caller))
            from_asset
            (Serves-in_registry service (set_eviction_policy service.env id policy caller))

  pub put_partition_quota-Serves :
      (stated : Option String) (space : String) (partition : String) (bytes : Option ℕ)
      (count : Option ℕ) (sweep : Option Bool)
      → Serves service (
          Legacy.put_partition_quota service authorization stated space partition bytes count sweep)
  unfolding Legacy.put_partition_quota run
  put_partition_quota-Serves stated space partition bytes count sweep =
      Serves-bind service (require_legacy_admin service authorization stated) _
        (Serves-legacy_admin service authorization stated)
        λ who.
          Serves-returning service
            (in_registry (
              set_partition_quota service.env space partition (whole bytes) (whole count) sweep
                "admin"))
            from_partition_quota
            (Serves-in_registry service (
              set_partition_quota service.env space partition (whole bytes) (whole count) sweep
                "admin"))

  pub put_bucket_quota-Serves :
      (stated : Option String) (space : String) (bytes : Option ℕ) (warn : Ratio) (hard : Ratio)
      → Serves service (Legacy.put_bucket_quota service authorization stated space bytes warn hard)
  unfolding Legacy.put_bucket_quota run
  put_bucket_quota-Serves stated space bytes warn hard =
      Serves-bind service (require_legacy_admin service authorization stated) _
        (Serves-legacy_admin service authorization stated)
        λ who.
          Serves-returning service (in_registry (set_bucket_quota space (whole bytes) warn hard))
            from_bucket_quota
            (Serves-in_registry service (set_bucket_quota space (whole bytes) warn hard))

  pub read_partition_quota-Serves :
      (space : String) (partition : String)
      → Serves service (Legacy.read_partition_quota service authorization space partition)
  unfolding Legacy.read_partition_quota
  read_partition_quota-Serves space partition =
      Serves-bind service (require_legacy_admin service authorization none) _
        (Serves-legacy_admin service authorization none)
        λ who.
          Serves-returning service (in_registry λ s. (partition_quota s space partition, s))
            from_partition_quota (Serves-reading service λ s. partition_quota s space partition)

  pub read_bucket_quota-Serves :
      (space : String) → Serves service (Legacy.read_bucket_quota service authorization space)
  unfolding Legacy.read_bucket_quota
  read_bucket_quota-Serves space =
      Serves-bind service (require_legacy_admin service authorization none) _
        (Serves-legacy_admin service authorization none)
        λ who.
          Serves-returning service (in_registry λ s. (bucket_quota s space, s)) from_bucket_quota
            (Serves-reading service λ s. bucket_quota s space)

  pub list_audit-Serves :
      (action target caller : Option String) (limit : ℕ)
      → Serves service (Legacy.list_audit service authorization action target caller limit)
  unfolding Legacy.list_audit
  list_audit-Serves action target caller limit =
      Serves-bind service (require_legacy_admin service authorization none) _
        (Serves-legacy_admin service authorization none)
        λ who. Serves-bind service (raise_when _ _) _ (Serves-raise_when service _ _) λ u.
          Serves-returning service (in_registry λ s. (ok s.audit_events, s)) _
            (Serves-reading service λ s. ok s.audit_events)
