-- ===== src/Api/Serving/Consoles.antt =====
-- The endpoints of the operator's console.
use prototype_cache.Prelude.{ℕ, String, Bool, true, Option, none, some, List, [], ◌∷◌}
use prototype_cache.Prelude.Text.{strip, is_space, is_slash}
use prototype_cache.Exec.{raise_when, or_fail, lift}
use prototype_cache.Models.{Asset}
use prototype_cache.AdminQuery.{AssetQuery}
use prototype_cache.Registry.State.{get_asset}
use prototype_cache.Registry.Quota.{partition_quota}
use prototype_cache.Registry.Queries.{query_assets, recent_audit}
use prototype_cache.Registry.Counters.{set_partition_quota}
use prototype_cache.Registry.Lifecycle.{
  expire_asset, delete_asset, set_asset_ttl, update_annotations, set_eviction_policy,
}
use prototype_cache.Registry.Aliases.{attach_alias, detach_alias, detach_mutable_alias}
use prototype_cache.Registry.Calls.{run}
use prototype_cache.Api.State.{Service, in_registry}
use prototype_cache.Api.Identity.{require_admin}
use prototype_cache.Api.Schemas.{from_partition_quota}
use prototype_cache.Api.Legacy.{whole}
use prototype_cache.Api.Filters.{given, validated, bulk_query}
use prototype_cache.Api.Console.{
  Action, Mutation, expire, delete, ttl, attach, detach, annotations, eviction, detach_name,
  perform, public_asset,
}
use prototype_cache.Api.Console as Console
use prototype_cache.Api.Browse as Browse
use prototype_cache.Api.Bulk.{Candidate, Applied, expire_candidate, expire_candidates, candidate_of}
use prototype_cache.Api.Bulk as Bulk
use prototype_cache.Api.Serving.{
  Serves, Serves-bind, Serves-returning, Serves-in_registry, Serves-reading, Serves-admin,
  Serves-raise_when, Serves-pure, Serves-raise, Serves-or_fail, Serves-lift, Serves-if_else,
  Serves-catch, Serves-get_asset,
}

module _ {S : Type 0} (service : Service S) where
  expire_asset-Serves :
      (id : String) → Serves service (in_registry (expire_asset service.env id "admin"))
  unfolding run
  expire_asset-Serves id = Serves-in_registry service (expire_asset service.env id "admin")

  detach_name-Serves :
      (asset : Asset) (alias : String) → Serves service (detach_name service asset alias)
  unfolding detach_name run
  detach_name-Serves asset alias =
      let name = strip is_slash (strip is_space alias) in
      Serves-bind service (raise_when _ _) _ (Serves-raise_when service _ _) λ u.
        Serves-catch service (in_registry (detach_alias service.env asset.space name "admin")) _
          (Serves-in_registry service (detach_alias service.env asset.space name "admin"))
          (λ e.
            Serves-if_else service _ _ _
              (Serves-returning service
                (in_registry (detach_mutable_alias service.env asset.space name "admin")) _
                (Serves-in_registry service
                  (detach_mutable_alias service.env asset.space name "admin")))
              (Serves-raise service e))

  perform-Serves :
      (action : Action) (asset : Asset) (id : String) (body : Mutation)
      → Serves service (perform service action asset id body)
  unfolding perform run
  perform-Serves expire asset id body =
      Serves-returning service (in_registry (expire_asset service.env id "admin")) _
        (expire_asset-Serves id)
  perform-Serves delete asset id body =
      Serves-returning service (in_registry (delete_asset service.env id "admin")) _
        (Serves-in_registry service (delete_asset service.env id "admin"))
  perform-Serves ttl asset id body =
      Serves-bind service (or_fail body.ttl_seconds _) _ (Serves-or_fail service _ _) λ seconds.
        Serves-returning service (in_registry (set_asset_ttl service.env id seconds "admin")) _
          (Serves-in_registry service (set_asset_ttl service.env id seconds "admin"))
  perform-Serves attach asset id body =
      Serves-bind service (raise_when _ _) _ (Serves-raise_when service _ _) λ u.
        Serves-returning service
          (in_registry (attach_alias service.env id (given body.alias) body.mutable "admin")) _
          (Serves-in_registry service
            (attach_alias service.env id (given body.alias) body.mutable "admin"))
  perform-Serves detach asset id body =
      Serves-bind service (raise_when _ _) _ (Serves-raise_when service _ _)
        λ u. detach_name-Serves asset (given body.alias)
  perform-Serves annotations asset id body =
      Serves-bind service (or_fail body.annotations _) _ (Serves-or_fail service _ _) λ patch.
        Serves-returning service
          (in_registry (update_annotations service.env id patch "admin" true)) _
          (Serves-in_registry service (update_annotations service.env id patch "admin" true))
  perform-Serves eviction asset id body =
      Serves-bind service (or_fail body.eviction_policy _) _ (Serves-or_fail service _ _) λ policy.
        Serves-returning service (in_registry (set_eviction_policy service.env id policy "admin")) _
          (Serves-in_registry service (set_eviction_policy service.env id policy "admin"))

  expire_candidate-Serves :
      (prefix : String) (candidate : Candidate) (counts : Applied)
      → Serves service (expire_candidate service prefix candidate counts)
  unfolding expire_candidate
  expire_candidate-Serves prefix candidate counts =
      Serves-bind service (in_registry (get_asset candidate.asset_id)) _
        (Serves-get_asset service candidate.asset_id)
        λ asset. Serves-if_else service _ _ _ (Serves-pure service _) (
          Serves-returning service (in_registry (expire_asset service.env asset.asset_id "admin")) _
            (expire_asset-Serves asset.asset_id))

  expire_candidates-Serves :
      (prefix : String) (candidates : List Candidate) (counts : Applied)
      → Serves service (expire_candidates service prefix candidates counts)
  unfolding expire_candidates
  expire_candidates-Serves prefix [] counts = Serves-pure service counts
  expire_candidates-Serves prefix (candidate ∷ rest) counts =
      Serves-bind service (expire_candidate service prefix candidate counts) _
        (expire_candidate-Serves prefix candidate counts)
        λ counted. expire_candidates-Serves prefix rest counted

module _ {S : Type 0} (service : Service S) (authorization : String) where
  pub mutate-Serves :
      (id : String) (body : Mutation)
      → Serves service (Console.mutate service authorization id body)
  unfolding Console.mutate
  mutate-Serves id body =
      Serves-bind service (require_admin service authorization) _
        (Serves-admin service authorization)
        λ who. Serves-bind service (raise_when _ _) _ (Serves-raise_when service _ _) λ u.
          Serves-bind service (in_registry (get_asset id)) _ (Serves-get_asset service id) λ asset.
            Serves-bind service (raise_when _ _) _ (Serves-raise_when service _ _) λ v.
              Serves-bind service (perform service body.action asset id body) _
                (perform-Serves service body.action asset id body)
                λ w.
                  Serves-returning service (in_registry (get_asset id)) public_asset
                    (Serves-get_asset service id)

  pub quota-Serves :
      (space partition : String) (bytes count : Option ℕ) (sweep : Option Bool)
      → Serves service (Console.quota service authorization space partition bytes count sweep)
  unfolding Console.quota run
  quota-Serves space partition bytes count sweep =
      Serves-bind service (require_admin service authorization) _
        (Serves-admin service authorization)
        λ who.
          Serves-returning service
            (in_registry (
              set_partition_quota service.env space partition (whole bytes) (whole count) sweep
                "admin"))
            from_partition_quota
            (Serves-in_registry service (
              set_partition_quota service.env space partition (whole bytes) (whole count) sweep
                "admin"))

  quota_of-Serves : (query : AssetQuery) → Serves service (Browse.quota_of service query)
  unfolding Browse.quota_of
  quota_of-Serves query =
      Serves-if_else service _ _ _
        (Serves-returning service
          (in_registry λ s. (partition_quota s (given query.space) (given query.partition_id), s)) _
          (Serves-reading service
            λ s. partition_quota s (given query.space) (given query.partition_id)))
        (Serves-pure service none)

  pub listing-Serves :
      (asked : AssetQuery) → Serves service (Browse.listing service authorization asked)
  unfolding Browse.listing
  listing-Serves asked =
      Serves-bind service (require_admin service authorization) _
        (Serves-admin service authorization)
        λ who. Serves-bind service (lift (validated asked)) _ (Serves-lift service _) λ query.
          Serves-bind service (in_registry λ s. (query_assets s query, s)) _
            (Serves-reading service λ s. query_assets s query)
            λ rows.
              Serves-bind service (Browse.quota_of service query) _ (quota_of-Serves query)
                λ found. Serves-pure service _

  pub inspect-Serves : (id : String) → Serves service (Browse.inspect service authorization id)
  unfolding Browse.inspect
  inspect-Serves id =
      Serves-bind service (require_admin service authorization) _
        (Serves-admin service authorization)
        λ who.
          Serves-bind service (in_registry (get_asset id)) _ (Serves-get_asset service id) λ asset.
            Serves-returning service (in_registry λ s. (recent_audit s (some id) 100, s)) _
              (Serves-reading service λ s. recent_audit s (some id) 100)

  pub audit-Serves : (limit : ℕ) → Serves service (Browse.audit service authorization limit)
  unfolding Browse.audit
  audit-Serves limit =
      Serves-bind service (require_admin service authorization) _
        (Serves-admin service authorization)
        λ who.
          Serves-bind service (raise_when _ _) _ (Serves-raise_when service _ _)
            λ u. Serves-reading service λ s. recent_audit s none limit

  pub preview-Serves :
      (prefix : String) → Serves service (Bulk.preview service authorization prefix)
  unfolding Bulk.preview
  preview-Serves prefix =
      Serves-bind service (require_admin service authorization) _
        (Serves-admin service authorization)
        λ who. Serves-bind service (lift (bulk_query prefix)) _ (Serves-lift service _) λ query.
          Serves-bind service (in_registry λ s. (query_assets s query, s)) _
            (Serves-reading service λ s. query_assets s query)
            λ rows.
              Serves-bind service (raise_when _ _) _ (Serves-raise_when service _ _)
                λ u. Serves-pure service _

  pub bulk-Serves :
      (prefix : String) (candidates : List Candidate)
      → Serves service (Bulk.bulk service authorization prefix candidates)
  unfolding Bulk.bulk
  bulk-Serves prefix candidates =
      Serves-bind service (require_admin service authorization) _
        (Serves-admin service authorization)
        λ who. Serves-bind service (raise_when _ _) _ (Serves-raise_when service _ _) λ u.
          Serves-bind service (lift (bulk_query prefix)) _ (Serves-lift service _) λ query.
            Serves-bind service (raise_when _ _) _ (Serves-raise_when service _ _)
              λ v. expire_candidates-Serves service (given query.prefix) candidates _
