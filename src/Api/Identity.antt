-- ===== src/Api/Identity.antt =====
-- The dependencies that say who is calling: `require_capability`, `require_service_identity`,
-- `require_admin` and `require_legacy_admin`. The argument is the `Authorization` header, empty where
-- it is missing.
use Prim.Native.Char.{Char, code}
use prototype_cache.Prelude.{String, Bool, not, ◌||◌, Option, none, some, nat_eq, str_eq, get_or}
use prototype_cache.Prelude.Text.{strip, is_space, partition_on, lowers_to}
use prototype_cache.Errors.{capability_denied, service_auth}
use prototype_cache.Exec.{Exec, pure, lift, or_fail, raise_when, ◌>>=◌, ◌>>◌}
use prototype_cache.Capabilities.Scope.{Capability}
use prototype_cache.Capabilities.Store.{get}
use prototype_cache.ServiceIdentity.{authenticate, is_colon}
use prototype_cache.Api.State.{Service, App, on_capabilities, now}

abbrev is_blank : Char → Bool
is_blank c = nat_eq (code c) 32

-- the scheme and the stripped token of the header
unfoldable pub credential : String → String × String
unfolding partition_on
credential header = elim (partition_on is_blank header) [
  | none ↦ (header, "")
  | some (scheme, token) ↦ (scheme, strip is_space token)
]

module _ {S : Type 0} (service : Service S) where
  unfoldable pub require_capability : String → Exec (App S) Capability
  unfolding credential
  require_capability authorization = do
    let found = credential authorization
    raise_when (not (lowers_to found.0 "capability") || str_eq found.1 "") capability_denied
    at ← now service
    capability ← on_capabilities (get found.1 at)
    or_fail capability capability_denied

  unfoldable pub require_service_identity : String → Exec (App S) String
  unfolding credential
  require_service_identity authorization = do
    let found = credential authorization
    raise_when (not (lowers_to found.0 "service") || str_eq found.1 "") service_auth
    pair ← or_fail (partition_on is_colon found.1) service_auth
    lift (authenticate pair.0 pair.1 service.credentials)

  unfoldable pub require_admin : String → Exec (App S) String
  unfolding require_service_identity
  require_admin authorization = do
    caller ← require_service_identity authorization
    raise_when (not (str_eq caller "admin")) capability_denied
    pure caller

  -- `stated` is the `caller_service_id` of the body, if the method has a body and it names one
  unfoldable pub require_legacy_admin : String → Option String → Exec (App S) String
  unfolding require_admin
  require_legacy_admin authorization stated = do
    caller ← require_admin authorization
    raise_when (not (str_eq (get_or stated caller) caller)) capability_denied
    pure caller
