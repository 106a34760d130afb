-- ===== src/Api/State.antt =====
-- `create_app`: the objects that the handlers share, and the settings of the process.
use Prim.Native.String.{◌++◌}
use prototype_cache.Prelude.{ℕ, ◌+◌, String, List, [], ◌∷◌, Option}
use prototype_cache.Prelude.Int.{ℤ, pos, positive?}
use prototype_cache.Prelude.Dict.{Dict}
use prototype_cache.Errors.{Result, ok, validation, value_error, or_raise, ◌>>=◌}
use prototype_cache.Exec.{Exec}
use prototype_cache.Env.{Env}
use prototype_cache.Registry.State.{Registry}
use prototype_cache.ObjectStore.Backend.{ObjectStoreBackend}
use prototype_cache.Capabilities.Store.{CapabilityStore, new_store}
use prototype_cache.IssuanceRate.{Floats, IssuanceRateLimiter, new_limiter}
use prototype_cache.Admission.{WorkAdmission, positive_limit_from_env, new_gate}
use prototype_cache.ServiceIdentity.{ServiceCredentialStore}
use prototype_cache.DataPlane.{DataPlane, on_registry, read_clock}

-- What does not change while the process runs.
pub record Service (S : Type 0) : Type 0 where
  pub env : Env
  pub floats : Floats
  pub store : ObjectStoreBackend S
  pub credentials : ServiceCredentialStore
  pub max_upload_bytes : ℕ
  -- the n-th `uuid4().hex` of a capability
  pub new_token : ℕ → String

pub record App (S : Type 0) : Type 0 where
  pub plane : DataPlane S
  pub capabilities : CapabilityStore
  pub issuance_rate : IssuanceRateLimiter
  pub uploads : WorkAdmission
  pub tokens : ℕ

module _ {S A : Type 0} where
  -- the guard, the object store and the registry
  abbrev pub on_plane : Exec (DataPlane S) A → Exec (App S) A
  on_plane m w = let r = m w.plane in (r.0, record w { plane = r.1 })

  abbrev pub on_capabilities : Exec CapabilityStore A → Exec (App S) A
  on_capabilities m w = let r = m w.capabilities in (r.0, record w { capabilities = r.1 })

  abbrev pub on_rate : Exec IssuanceRateLimiter A → Exec (App S) A
  on_rate m w = let r = m w.issuance_rate in (r.0, record w { issuance_rate = r.1 })

  abbrev pub on_uploads : Exec WorkAdmission A → Exec (App S) A
  on_uploads m w = let r = m w.uploads in (r.0, record w { uploads = r.1 })

  abbrev pub in_registry : Exec Registry A → Exec (App S) A
  in_registry m = on_plane (on_registry m)

module _ {S : Type 0} (service : Service S) where
  abbrev pub now : Exec (App S) ℕ
  now = on_plane (read_clock service.env)

  -- the next identifier of a capability, `f"cap-{uuid4().hex}"`
  abbrev pub next_token : Exec (App S) String
  next_token w = (ok ("cap-" ++ service.new_token w.tokens), record w { tokens = w.tokens + 1 })

abbrev pub identities : Dict String String → List String
identities [] = []
identities ((service_id, secret) ∷ rest) = service_id ∷ identities rest

-- The settings that `create_app` reads from the environment; `none`: the text is no integer.
pub record Settings : Type 0 where
  pub max_upload_bytes : Option ℤ
  pub max_capabilities : Option ℤ
  pub rate_per_minute : Option ℤ
  pub rate_burst : Option ℤ
  pub max_inflight_uploads : Option ℤ

-- the objects of a new process, over a registry and an object store; and the bound on an upload
unfoldable pub create_app :
    {S : Type 0} → Floats → ServiceCredentialStore → Settings → Registry → S → Result (ℕ × App S)
create_app floats credentials settings registry store = do
  upload_limit ← or_raise settings.max_upload_bytes value_error
  max_upload_bytes ← or_raise (positive? upload_limit) validation
  max_capabilities ← or_raise settings.max_capabilities validation
  capabilities ← new_store max_capabilities
  per_minute ← positive_limit_from_env settings.rate_per_minute
  burst ← positive_limit_from_env settings.rate_burst
  issuance_rate ← new_limiter floats (identities credentials.secrets) (pos per_minute) (pos burst)
  limit ← positive_limit_from_env settings.max_inflight_uploads
  uploads ← new_gate (pos limit)
  ok (
    max_upload_bytes,
    record {
      plane = record { registry = registry; store = store; ledger = record { consumed = [] } };
      capabilities = capabilities;
      issuance_rate = issuance_rate;
      uploads = uploads;
      tokens = 0;
    },
  )
