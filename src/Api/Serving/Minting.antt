-- ===== src/Api/Serving/Minting.antt =====
-- `mint_capability`.
use prototype_cache.Prelude.{
  ◌+◌, ◌*◌, String, ◌≡◌, sym, arith, Option, none, some, inl, inr, Bool-cases, subst,
}
use prototype_cache.Prelude.Dict.{lookup, text_key}
use prototype_cache.Errors.{ok, Result-cases}
use prototype_cache.Exec.{raise_when, lift}
use prototype_cache.Exec.Follows.{Follows-known}
use prototype_cache.Retention.{second}
use prototype_cache.Capabilities.Scope.{Capability, new_capability}
use prototype_cache.Capabilities.Store.{make_room, hold, issue}
use prototype_cache.Capabilities.Store.Held.{issue-Keeps, issue_capacity}
use prototype_cache.ServicePolicy.{assert_service_bucket_allowed}
use prototype_cache.Guard.Access.{prune_consumed_capabilities}
use prototype_cache.IssuanceRate.{admit}
use prototype_cache.Registry.Queries.{record_capability_issue}
use prototype_cache.Api.State.{Service, App, on_plane, on_rate, in_registry, now, next_token}
use prototype_cache.Api.Identity.{require_service_identity}
use prototype_cache.Api.Mint.{
  CapabilityMintRequest, operation_value, is_denial, bucket_of_scope, check_bucket, issue_audited,
  deliver, capability_out, grant, mint_capability,
}
use prototype_cache.Api.Refusals.{IsProof, require_service_identity-IsProof}
use prototype_cache.Api.Serving.{
  IsVouched, Served, Served-Composes, Serves, Serves-bind, Serves-returning, Serves-in_registry,
  Serves-identity, Serves-raise_when, Serves-raise, Serves-lift, Serves-if_else, Serves-catch,
  Serves-on_plane, Serves-on_rate, Serves-now, Serves-next_token,
}

module _ {S : Type 0} (service : Service S) where
  -- What the grant does to the store is what `issue` does, with the audit of the grant as callback.
  issue_audited-issue :
      (cap : Capability) (body : CapabilityMintRequest) (w : App S)
      → (issue_audited service cap body w).1.capabilities
        ≡ (issue cap (service.env.clock w.plane.registry.readings) (ok tt) w.capabilities).1
  unfolding issue_audited issue make_room hold record_capability_issue
  issue_audited-issue cap body w = ground arith

  -- An audit of an attempt to get a capability.
  record_issue-Serves :
      (caller outcome : String) (body : CapabilityMintRequest) (id : Option String)
      → Serves service (
          in_registry (
            record_capability_issue service.env caller
              (operation_value body.operation)
              body.scope_prefix
              body.ttl_seconds
              outcome
              id))
  record_issue-Serves caller outcome body id = Serves-in_registry service (
      record_capability_issue service.env caller (operation_value body.operation) body.scope_prefix
        body.ttl_seconds outcome id)

  issue_audited-Serves :
      (cap : Capability) (body : CapabilityMintRequest)
      → IsVouched service cap
      → Serves service (issue_audited service cap body)
  unfolding issue_audited
  issue_audited-Serves cap body vouched = record {
    at = λ w. record {
      held = λ sound. rw (issue_audited-issue cap body w) (
          issue-Keeps (IsVouched service) cap (service.env.clock w.plane.registry.readings) (ok tt)
            w.capabilities vouched sound);
      capacity =
          rw (issue_audited-issue cap body w) (
            issue_capacity cap (service.env.clock w.plane.registry.readings) (ok tt)
              w.capabilities);
      gate = ground arith;
    };
  }

  new_capability-ok : (cap made : Capability) → new_capability cap ≡ ok made → made ≡ cap
  unfolding new_capability
  new_capability-ok cap made h = ground arith

  check_bucket-Serves :
      (caller bucket : String) (body : CapabilityMintRequest)
      → Serves service (check_bucket service caller bucket body)
  unfolding check_bucket
  check_bucket-Serves caller bucket body =
      Serves-catch service (lift (assert_service_bucket_allowed caller bucket body.operation)) _
        (Serves-lift service _)
        (λ e.
          Serves-if_else service _ _ _
            (Serves-bind service
              (in_registry (
                record_capability_issue service.env caller (operation_value body.operation)
                  body.scope_prefix body.ttl_seconds "denied" none))
              _ (record_issue-Serves caller "denied" body none) λ u. Serves-raise service e)
            (Serves-raise service e))

  check_bucket-allowed :
      (caller bucket : String) (body : CapabilityMintRequest) (w : App S)
      → (check_bucket service caller bucket body w).0 ≡ ok tt
      → assert_service_bucket_allowed caller bucket body.operation ≡ ok tt
  unfolding check_bucket record_capability_issue
  check_bucket-allowed caller bucket body w h =
      elim (Result-cases (assert_service_bucket_allowed caller bucket body.operation)) [
        | inl (u, allowed) ↦ allowed
        | inr (e, refused) ↦ elim (Bool-cases (is_denial e)) [
          | inl denied ↦ absurd (ground arith)
          | inr other ↦ absurd (ground arith)
        ]
      ]

  deliver-Serves :
      (cap : Capability) (body : CapabilityMintRequest)
      → IsVouched service cap
      → Serves service (deliver service body cap)
  unfolding deliver
  deliver-Serves cap body vouched =
      Serves-bind service (on_plane (prune_consumed_capabilities service.env service.store)) _
        (Serves-on_plane service _)
        λ u.
          Serves-returning service (issue_audited service cap body) (λ v. capability_out cap)
            (issue_audited-Serves cap body vouched)

  grant-Serves :
      (caller bucket secret : String) (body : CapabilityMintRequest)
      → bucket_of_scope body.scope_prefix ≡ ok bucket
      → assert_service_bucket_allowed caller bucket body.operation ≡ ok tt
      → lookup caller service.credentials.secrets ≡ some secret
      → Serves service (grant service caller body)
  unfolding grant
  grant-Serves caller bucket secret body named allowed known =
      Serves-bind service (next_token service) _ (Serves-next_token service) λ token.
        Serves-bind service (now service) _ (Serves-now service) λ created.
          let asked : Capability = record {
            capability_id = token;
            operation = body.operation;
            scope_prefix = body.scope_prefix;
            expires_at = created + body.ttl_seconds * second;
            caller_service_id = caller;
            single_use = body.single_use;
          } in
          let vouched : IsVouched service asked = record {
            bucket = bucket;
            secret = secret;
            named = named;
            allowed = allowed;
            known = known;
          } in
          Follows-known (Served service) (Served-Composes service) (IsVouched service)
            (lift (new_capability asked)) (deliver service body) (Serves-lift service _)
            (λ w c made. subst (IsVouched service) (sym (new_capability-ok asked c made)) vouched)
            λ c c_vouched. deliver-Serves c body c_vouched

  pub mint_capability-Serves :
      (authorization : String) (body : CapabilityMintRequest)
      → Serves service (mint_capability service authorization body)
  unfolding mint_capability
  mint_capability-Serves authorization body =
      let R = Served service in
      let law = Served-Composes service in
      Follows-known R law (IsProof service authorization)
        (require_service_identity service authorization) _ (Serves-identity service authorization)
        (λ w who h. require_service_identity-IsProof service authorization w who h)
        λ who (name, secret, scheme, pair, same, known).
          Serves-bind service (raise_when _ _) _ (Serves-raise_when service _ _) λ u.
            Serves-bind service (on_rate (admit service.floats who)) _ (Serves-on_rate service _)
              λ v.
                Follows-known R law (λ bucket. bucket_of_scope body.scope_prefix ≡ ok bucket)
                  (lift (bucket_of_scope body.scope_prefix)) _ (Serves-lift service _)
                  (λ w bucket h. h)
                  λ bucket named.
                    Follows-known R law
                      (λ x. assert_service_bucket_allowed who bucket body.operation ≡ ok tt)
                      (check_bucket service who bucket body) _ (check_bucket-Serves who bucket body)
                      (λ w x h. check_bucket-allowed who bucket body w h)
                      λ x allowed. grant-Serves who bucket secret body named allowed known
