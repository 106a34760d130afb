-- ===== src/Examples/Served.antt =====
-- The theorems on the HTTP process at concrete inputs: a service gets a capability and uploads.
use prototype_cache.Prelude.{
  ◌+◌, ◌-◌, ◌*◌, ◌/◌, ◌≤◌, ◌≡◌, ◌⊎◌, refl, false, none, some, String, [], ◌∷◌, length, ltb,
  if◌then◌else◌, true,
}
use prototype_cache.Prelude.Int.{pos}
use prototype_cache.Prelude.Dict.{lookup, insert, text_key}
use prototype_cache.Errors.{Error, ok, err, upload_too_large, service_auth, capability_denied}
use prototype_cache.ObjectStore.{LocalObjectStore}
use prototype_cache.ObjectStore.Backend.{local_backend}
use prototype_cache.Capabilities.Scope.{Capability, write, allows, is_same_path_or_child}
use prototype_cache.IssuanceRate.{Floats}
use prototype_cache.Api.State.{Service, App, Settings, create_app}
use prototype_cache.Api.Identity.{credential}
use prototype_cache.ServicePolicy.{assert_service_bucket_allowed}
use prototype_cache.Api.Mint.{bucket_of_scope, CapabilityMintRequest}
use prototype_cache.Api.Requests.{mint, audit, serve}
use prototype_cache.Api.Refusals.{MayAsk, serve_refused}
use prototype_cache.Api.Objects.{WriteRequest, finish_upload}
use prototype_cache.Api.Objects.Received.{body, finish_upload-body}
use prototype_cache.Api.Serving.{IsSound}
use prototype_cache.Api.Process.{Process, request, begin, advance, Lives, started, and_event}
use prototype_cache.Api.Process.Invariants.{Starts, Lives-IsSound, Lives-allows, Lives-IsCounted}
use prototype_cache.Examples.{process, empty, length_digest, holding}

-- whole numbers for floats
abbrev whole_floats : Floats
whole_floats = record {
  monotonic = λ n. n;
  float = λ n. n;
  quotient = λ m n. m / n;
  add = λ x y. x + y;
  subtract = λ x y. x - y;
  multiply = λ x y. x * y;
  divide = λ x y. x / y;
  less = ltb;
  ceil = λ x. x;
}

abbrev service : Service LocalObjectStore
service = record {
  env = process;
  floats = whole_floats;
  store = local_backend length_digest;
  credentials = record { secrets = ("admin", "root") ∷ ("upload-api", "key") ∷ [] };
  max_upload_bytes = 4;
  new_token = λ n. "token";
}

abbrev settings : Settings
settings = record {
  max_upload_bytes = some (pos 4);
  max_capabilities = some (pos 2);
  rate_per_minute = some (pos 60);
  rate_burst = some (pos 3);
  max_inflight_uploads = some (pos 1);
}

abbrev begun : App LocalObjectStore
begun = record {
  plane = record { registry = empty; store = holding; ledger = record { consumed = [] } };
  capabilities = record { max_capabilities = 2; capabilities = [] };
  issuance_rate = record {
    rate = 1;
    burst = 3;
    credit =
        ("upload-api", record { tokens = 3; updated_at = 0 })
        ∷ ("admin", record { tokens = 3; updated_at = 0 })
        ∷ [];
    readings = 1;
  };
  uploads = record { limit = 1; active = 0 };
  tokens = 0;
}

starts : Starts service settings empty holding begun
unfolding create_app insert prototype_cache.IssuanceRate.new_limiter
    prototype_cache.IssuanceRate.full_credit prototype_cache.Capabilities.Store.new_store
    prototype_cache.Admission.new_gate prototype_cache.Admission.positive_limit_from_env
starts = refl

abbrev asked : CapabilityMintRequest
asked = record {
  operation = write;
  scope_prefix = "users/u1";
  ttl_seconds = 100;
  single_use = false;
}

abbrev upload : WriteRequest
upload = record {
  authorization = "Capability cap-token";
  alias = "users/u1/a.jpg";
  mutable = false;
  expected_checksum = none;
  ttl_seconds = none;
  content_length = none;
  content_type = none;
}

abbrev granted : Process LocalObjectStore
granted =
    advance service (request "Service upload-api:key" (mint asked))
      (record { app = begun; in_flight = [] })

abbrev uploading : Process LocalObjectStore
uploading = advance service (begin upload) granted

after_grant : Lives service begun granted
after_grant = and_event (request "Service upload-api:key" (mint asked)) started

lives : Lives service begun uploading
lives = and_event (begin upload) after_grant

Lives-IsSound_example :
    (uploading.app.capabilities.max_capabilities ≡ 2) × IsSound service uploading.app.capabilities
Lives-IsSound_example = Lives-IsSound service settings empty holding begun uploading starts lives

abbrev cap : Capability
cap = record {
  capability_id = "cap-token";
  operation = write;
  scope_prefix = "users/u1";
  expires_at = 100001000;
  caller_service_id = "upload-api";
  single_use = false;
}

granted_token : lookup "cap-token" granted.app.capabilities.capabilities ≡ some cap
unfolding prototype_cache.Prelude.Text.is_space prototype_cache.Prelude.Text.is_slash
    prototype_cache.Prelude.Text.lstrip prototype_cache.Prelude.Text.rstrip
    prototype_cache.Prelude.Text.strip prototype_cache.Prelude.Text.split
    prototype_cache.Prelude.Text.join prototype_cache.Prelude.Text.split_on
    prototype_cache.Prelude.Text.partition_on prototype_cache.Prelude.Text.lower_codes
    prototype_cache.Prelude.Text.lowers_to prototype_cache.Prelude.Text.rpartition_on
    prototype_cache.Prelude.Text.ends_with prototype_cache.Paths.trim
    prototype_cache.Paths.normalize_bucket prototype_cache.Paths.normalize_space
    prototype_cache.Paths.is_bad_segment prototype_cache.Paths.check_segments
    prototype_cache.Paths.normalize_relative_alias prototype_cache.Paths.normalize_partition_id
    prototype_cache.Paths.qualified_alias prototype_cache.Paths.qualified_alias_for_partition
    prototype_cache.Capabilities.Scope.new_capability
    prototype_cache.Capabilities.Scope.is_same_path_or_child
    prototype_cache.Capabilities.Scope.allows prototype_cache.Capabilities.Scope.require
    prototype_cache.Capabilities.Store.prune prototype_cache.Capabilities.Store.make_room
    prototype_cache.Capabilities.Store.hold prototype_cache.Capabilities.Ledger.prune
    prototype_cache.Capabilities.Ledger.prune_expired
    prototype_cache.ServicePolicy.buckets_for_service
    prototype_cache.ServicePolicy.assert_service_bucket_allowed
    prototype_cache.ServiceIdentity.authenticate prototype_cache.IssuanceRate.refilled
    prototype_cache.IssuanceRate.spend prototype_cache.IssuanceRate.admit
    prototype_cache.Api.Identity.credential prototype_cache.Api.Identity.require_capability
    prototype_cache.Api.Identity.require_service_identity prototype_cache.Api.Identity.require_admin
    prototype_cache.Api.Identity.require_legacy_admin prototype_cache.Api.Mint.bucket_of_scope
    prototype_cache.Api.Mint.capability_out prototype_cache.Api.Mint.check_bucket
    prototype_cache.Api.Mint.issue_audited prototype_cache.Api.Mint.deliver
    prototype_cache.Api.Mint.grant prototype_cache.Api.Mint.mint_capability
    prototype_cache.Api.Requests.serve prototype_cache.Api.Process.begun
    prototype_cache.Api.Process.advance prototype_cache.Registry.Queries.record_capability_issue
    prototype_cache.Guard.Access.prune_consumed_capabilities prototype_cache.Prelude.Dict.lookup
    prototype_cache.Prelude.Dict.insert
granted_token = refl

allowed : allows cap write "users/u1/a.jpg" 2000 ≡ true
unfolding allows is_same_path_or_child
allowed = refl

Lives-allows_example :
    (bucket : String) × (bucket_of_scope "users/u1/a.jpg" ≡ ok bucket)
    × (assert_service_bucket_allowed "upload-api" bucket write ≡ ok tt)
    × (secret : String) × (lookup "upload-api" service.credentials.secrets ≡ some secret)
Lives-allows_example =
    Lives-allows service settings empty holding begun granted "cap-token" cap write "users/u1/a.jpg"
      2000 starts after_grant granted_token allowed

Lives-IsCounted_example :
    (uploading.app.uploads.active ≡ length uploading.in_flight) × (length uploading.in_flight ≤ 1)
Lives-IsCounted_example =
    Lives-IsCounted service settings empty holding begun uploading starts lives

no_proof : ¬ MayAsk service "" (audit 10)
unfolding credential
no_proof (who, (name, secret, scheme, pair, same, known), may) = cc

serve_refused_example :
    (e : Error) × (serve service "" (audit 10) begun ≡ (err e, begun))
    × ((e ≡ service_auth) ⊎ (e ≡ capability_denied))
serve_refused_example = serve_refused service "" (audit 10) begun no_proof

finish_upload-body_example :
    finish_upload service upload cap ((1 ∷ 2 ∷ []) ∷ (3 ∷ []) ∷ []) begun ≡ (
      if ltb 4 (length (body ((1 ∷ 2 ∷ []) ∷ (3 ∷ []) ∷ [])))
      then (
        err upload_too_large,
        record begun { uploads = record begun.uploads { active = begun.uploads.active - 1 } },
      )
      else finish_upload service upload cap ((1 ∷ 2 ∷ 3 ∷ []) ∷ []) begun)
finish_upload-body_example =
    finish_upload-body service upload cap ((1 ∷ 2 ∷ []) ∷ (3 ∷ []) ∷ []) begun
