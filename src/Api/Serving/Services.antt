-- ===== src/Api/Serving/Services.antt =====
-- `reserve`, `commit` and `resolve`.
use prototype_cache.Prelude.{◌≡◌, [], arith, String, none}
use prototype_cache.Prelude.Int.{pos}
use prototype_cache.Exec.{raise_when, or_fail, lift}
use prototype_cache.Exec.Follows.{Follows-same}
use prototype_cache.Storage.{for_asset}
use prototype_cache.Capabilities.Scope.{read, write}
use prototype_cache.ServicePolicy.{assert_service_bucket_allowed}
use prototype_cache.Registry.State.{get_asset}
use prototype_cache.Registry.Names.{flags}
use prototype_cache.Registry.Quota.{bucket_quota}
use prototype_cache.Registry.Lifecycle.{commit_asset}
use prototype_cache.Registry.Aliases.{reserve_asset, resolve_alias}
use prototype_cache.DataPlane.{on_store}
use prototype_cache.Api.State.{Service, App, on_plane, in_registry}
use prototype_cache.Api.Identity.{require_service_identity}
use prototype_cache.Api.Schemas.{from_asset}
use prototype_cache.Api.Assets.{
  ReserveRequest, CommitRequest, mutable_flags, observe_bucket_fill, check_reserve,
}
use prototype_cache.Api.Assets as Assets
use prototype_cache.Api.Refusals.{require_service_identity_rest}
use prototype_cache.Api.Serving.{
  Served, Served-Composes, Serves, Serves-bind, Serves-returning, Serves-in_registry,
  Serves-reading, Serves-identity, Serves-raise_when, Serves-or_fail, Serves-lift, Serves-get_asset,
  Serves-on_plane,
}

module _ {S : Type 0} (service : Service S) where
  pub observe_bucket_fill-Serves :
      (space : String) → Serves service (observe_bucket_fill service space)
  unfolding observe_bucket_fill
  observe_bucket_fill-Serves space =
      Serves-returning service (in_registry λ s. (bucket_quota s space, s)) _
        (Serves-reading service λ s. bucket_quota s space)

module _ {S : Type 0} (service : Service S) (authorization : String) where
  check_reserve_rest :
      (body : ReserveRequest) (w : App S) → (check_reserve service authorization body w).1 ≡ w
  unfolding check_reserve
  check_reserve_rest body w =
      let still = require_service_identity_rest service authorization w in ground arith

  pub reserve-Serves :
      (body : ReserveRequest) → Serves service (Assets.reserve service authorization body)
  unfolding Assets.reserve
  reserve-Serves body =
      let alone = flags (mutable_flags body.aliases []) in
      Serves-bind service (check_reserve service authorization body) _
        (Follows-same (Served service) (Served-Composes service) _ (check_reserve_rest body))
        λ u.
          Serves-returning service
            (in_registry (
              reserve_asset service.env body.space body.partition_id alone body.owner_service_id
                body.mime body.annotations body.eviction_policy body.ttl_seconds none))
            from_asset (Serves-in_registry service _)

  pub commit-Serves :
      (id : String) (body : CommitRequest)
      → Serves service (Assets.commit service authorization id body)
  unfolding Assets.commit
  commit-Serves id body =
      Serves-bind service (require_service_identity service authorization) _
        (Serves-identity service authorization)
        λ who. Serves-bind service (raise_when _ _) _ (Serves-raise_when service _ _) λ u.
          Serves-bind service (in_registry (get_asset id)) _ (Serves-get_asset service id)
            λ reserved.
              Serves-bind service (lift (assert_service_bucket_allowed who reserved.space write)) _
                (Serves-lift service _)
                λ v. Serves-bind service (raise_when _ _) _ (Serves-raise_when service _ _) λ x.
                  Serves-bind service
                    (lift (for_asset reserved.space reserved.partition_id reserved.asset_id)) _
                    (Serves-lift service _)
                    λ location.
                      Serves-bind service (on_plane (on_store (service.store.stat location))) _
                        (Serves-on_plane service _)
                        λ found.
                          Serves-bind service (or_fail found _) _ (Serves-or_fail service _ _)
                            λ stat.
                              Serves-bind service (raise_when _ _) _ (Serves-raise_when service _ _)
                                λ y.
                                  Serves-bind service
                                    (in_registry (
                                      commit_asset service.env id (pos stat.size_bytes)
                                        stat.checksum who body.mime body.expected_checksum))
                                    _
                                    (Serves-in_registry service (
                                      commit_asset service.env id (pos stat.size_bytes)
                                        stat.checksum who body.mime body.expected_checksum))
                                    λ asset.
                                      Serves-returning service
                                        (observe_bucket_fill service asset.space) _
                                        (observe_bucket_fill-Serves service asset.space)

  pub resolve-Serves :
      (space alias : String) → Serves service (Assets.resolve service authorization space alias)
  unfolding Assets.resolve
  resolve-Serves space alias =
      Serves-bind service (require_service_identity service authorization) _
        (Serves-identity service authorization)
        λ who.
          Serves-bind service (lift (assert_service_bucket_allowed who space read)) _
            (Serves-lift service _)
            λ u.
              Serves-returning service (in_registry (resolve_alias service.env space alias))
                from_asset (Serves-in_registry service (resolve_alias service.env space alias))
