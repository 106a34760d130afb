-- ===== src/Api/Mint.antt =====
-- `mint_capability`, with the tests of its request's schema.
use prototype_cache.Prelude.{ℕ, ◌+◌, ◌*◌, String, Bool, true, false, not, ◌&&◌, none, some, leb}
use prototype_cache.Prelude.Text.{strip, is_slash, split}
use prototype_cache.Errors.{Error, Result, capability_denied, request_validation}
use prototype_cache.Exec.{Exec, pure, raise, lift, raise_when, if_else, catch, ◌>>=◌, ◌>>◌}
use prototype_cache.Paths.{normalize_space}
use prototype_cache.Registry.Names.{first_segment}
use prototype_cache.Retention.{second}
use prototype_cache.Capabilities.Scope.{Capability, Operation, read, write, new_capability}
use prototype_cache.Capabilities.Store.{make_room, hold}
use prototype_cache.ServicePolicy.{assert_service_bucket_allowed}
use prototype_cache.IssuanceRate.{admit}
use prototype_cache.Registry.Queries.{record_capability_issue}
use prototype_cache.Guard.Access.{prune_consumed_capabilities}
use prototype_cache.Api.State.{
  Service, App, on_plane, on_capabilities, on_rate, in_registry, now, next_token,
}
use prototype_cache.Api.Identity.{require_service_identity}
use prototype_cache.Api.Schemas.{CapabilityOut}

pub record CapabilityMintRequest : Type 0 where
  pub operation : Operation
  pub scope_prefix : String
  pub ttl_seconds : ℕ
  pub single_use : Bool

-- `Operation.value`
abbrev pub operation_value : Operation → String
operation_value read = "read"
operation_value write = "write"

abbrev pub is_denial : Error → Bool
is_denial capability_denied = true
is_denial _ = false

-- the bucket of a scope, `normalize_space(scope.strip("/").split("/", 1)[0])`
unfoldable pub bucket_of_scope : String → Result String
bucket_of_scope scope_prefix = normalize_space (first_segment (split (strip is_slash scope_prefix)))

unfoldable pub capability_out : Capability → CapabilityOut
capability_out cap = record {
  capability_id = cap.capability_id;
  operation = operation_value cap.operation;
  scope_prefix = cap.scope_prefix;
  caller_service_id = cap.caller_service_id;
  expires_at = cap.expires_at;
  single_use = cap.single_use;
}

module _ {S : Type 0} (service : Service S) where
  -- the test of the service's buckets, whose denial is recorded
  unfoldable pub check_bucket : String → String → CapabilityMintRequest → Exec (App S) (Unit {0})
  check_bucket caller bucket body =
      catch (lift (assert_service_bucket_allowed caller bucket body.operation)) (λ e.
        if_else (is_denial e)
          (do
            in_registry (
                record_capability_issue service.env caller (operation_value body.operation)
                  body.scope_prefix body.ttl_seconds "denied" none)
            raise e)
          (raise e))

  -- `capabilities.issue(cap, on_grant=audit_grant)`
  unfoldable pub issue_audited : Capability → CapabilityMintRequest → Exec (App S) (Unit {0})
  issue_audited cap body = do
    at ← now service
    on_capabilities (make_room cap at)
    in_registry (
        record_capability_issue service.env cap.caller_service_id (operation_value body.operation)
          body.scope_prefix body.ttl_seconds "granted" (some cap.capability_id))
    on_capabilities (hold cap)

  -- the new capability, stored and returned
  unfoldable pub deliver : CapabilityMintRequest → Capability → Exec (App S) CapabilityOut
  unfolding issue_audited
  deliver body cap = do
    on_plane (prune_consumed_capabilities service.env service.store)
    issue_audited cap body
    pure (capability_out cap)

  -- the new capability, made and stored
  unfoldable pub grant : String → CapabilityMintRequest → Exec (App S) CapabilityOut
  unfolding deliver
  grant caller body = do
    token ← next_token service
    created ← now service
    cap ← lift (
        new_capability (record {
          capability_id = token;
          operation = body.operation;
          scope_prefix = body.scope_prefix;
          expires_at = created + body.ttl_seconds * second;
          caller_service_id = caller;
          single_use = body.single_use;
        }))
    deliver body cap

  unfoldable pub mint_capability : String → CapabilityMintRequest → Exec (App S) CapabilityOut
  unfolding check_bucket grant
  mint_capability authorization body = do
    caller ← require_service_identity service authorization
    raise_when (not (leb 60 body.ttl_seconds && leb body.ttl_seconds 86400)) request_validation
    on_rate (admit service.floats caller)
    bucket ← lift (bucket_of_scope body.scope_prefix)
    check_bucket caller bucket body
    grant caller body
