-- ===== src/Api/Serving.antt =====
-- What a handler may do to the parts of the process, and the rules for the blocks that handlers are
-- built of.
pub mod Services
pub mod Minting
pub mod Admins
pub mod Consoles
pub mod Transfers
use prototype_cache.Prelude.{
  ℕ, ◌+◌, String, Bool, ◌≡◌, refl, ◌∙◌, Option, some, List, [], ◌∷◌, arith, if◌then◌else◌,
}
use prototype_cache.Prelude.Dict.{Dict, lookup, insert, text_key}
use prototype_cache.Prelude.Sort.{Every}
use prototype_cache.Errors.{Result, ok, Error}
use prototype_cache.Exec.{Exec, raise, pure, lift, or_fail, raise_when, if_else, catch, ◌>>=◌}
use prototype_cache.Exec.Follows.{
  Follows, Composes, Follows-bind, Follows-catch, Follows-pure, Follows-raise, Follows-lift,
  Follows-or_fail, Follows-if_else, Follows-raise_when, Follows-same,
}
use prototype_cache.Capabilities.Scope.{Capability}
use prototype_cache.Capabilities.Store.{CapabilityStore, prune, get}
use prototype_cache.Capabilities.Store.Held.{Keeps, get-Keeps}
use prototype_cache.ServicePolicy.{assert_service_bucket_allowed}
use prototype_cache.IssuanceRate.{IssuanceRateLimiter}
use prototype_cache.Registry.State.{Registry, get_asset}
use prototype_cache.Registry.Calls.{Call, run, IsAdmissible, Runs, stay}
use prototype_cache.Registry.Calls.Sequences.{Runs-trans}
use prototype_cache.DataPlane.{DataPlane}
use prototype_cache.DataPlane.Visits.{
  Visits, Visits-call, Visits-aside, Visits-read_clock, Visits-get_asset,
}
use prototype_cache.Api.State.{
  Service, App, on_plane, on_rate, on_capabilities, in_registry, now, next_token,
}
use prototype_cache.Api.Identity.{
  require_service_identity, require_admin, require_legacy_admin, require_capability,
}
use prototype_cache.Api.Mint.{bucket_of_scope}
use prototype_cache.Api.Refusals.{require_service_identity_rest}

module _ {S : Type 0} (service : Service S) where
  -- The capability was granted to a configured service, for a bucket on which the service may do
  -- what the capability lets it do.
  pub record IsVouched (cap : Capability) : Type 0 where
    pub bucket : String
    pub secret : String
    pub named : bucket_of_scope cap.scope_prefix ≡ ok bucket
    pub allowed : assert_service_bucket_allowed cap.caller_service_id bucket cap.operation ≡ ok tt
    pub known : lookup cap.caller_service_id service.credentials.secrets ≡ some secret

  -- The store is within its capacity and holds such capabilities only.
  abbrev pub IsSound : CapabilityStore → Type 0
  IsSound = Keeps IsVouched

  -- From one state of the process to a later one, whatever becomes of the registry, the object store
  -- and the ledger: the store of capabilities stays sound and its capacity what it is, and no upload
  -- begins or ends.
  pub record Served (u v : App S) : Type 0 where
    pub held : IsSound u.capabilities → IsSound v.capabilities
    pub capacity : v.capabilities.max_capabilities ≡ u.capabilities.max_capabilities
    pub gate : v.uploads ≡ u.uploads

  pub Served-Composes : Composes Served
  Served-Composes = record {
    stay = λ u. record { held = λ h. h; capacity = refl; gate = refl };
    then_on = λ u v w h k. record {
      held = λ s. k.held (h.held s);
      capacity = k.capacity ∙ h.capacity;
      gate = k.gate ∙ h.gate;
    };
  }

  abbrev pub Serves : {A : Type 0} → Exec (App S) A → Type 0
  Serves m = Follows Served m

  module _ {A B : Type 0} where
    pub Serves-bind :
        (m : Exec (App S) A) (f : A → Exec (App S) B)
        → Serves m
        → ((a : A) → Serves (f a))
        → Serves (m >>= f)
    Serves-bind = Follows-bind Served Served-Composes

    -- An action of which the result is returned in another form.
    pub Serves-returning :
        (m : Exec (App S) A) (reply : A → B) → Serves m → Serves (m >>= λ a. pure (reply a))
    Serves-returning m reply h =
        Serves-bind m _ h λ a. Follows-pure Served Served-Composes (reply a)

  module _ {A : Type 0} where
    pub Serves-catch :
        (m : Exec (App S) A) (f : Error → Exec (App S) A)
        → Serves m
        → ((e : Error) → Serves (f e))
        → Serves (catch m f)
    Serves-catch = Follows-catch Served Served-Composes

    pub Serves-pure : (a : A) → Serves (pure a)
    Serves-pure = Follows-pure Served Served-Composes

    pub Serves-raise : (e : Error) → Serves (raise {A = A} e)
    Serves-raise = Follows-raise Served Served-Composes

    pub Serves-lift : (r : Result A) → Serves (lift r)
    Serves-lift = Follows-lift Served Served-Composes

    pub Serves-or_fail : (o : Option A) (e : Error) → Serves (or_fail o e)
    Serves-or_fail = Follows-or_fail Served Served-Composes

    pub Serves-if_else :
        (b : Bool) (m n : Exec (App S) A) → Serves m → Serves n → Serves (if_else b m n)
    Serves-if_else = Follows-if_else Served Served-Composes

    -- What the guard, the store and the registry do.
    pub Serves-on_plane : (m : Exec (DataPlane S) A) → Serves (on_plane m)
    Serves-on_plane m = record { at = λ w. record { held = λ s. s; capacity = refl; gate = refl } }

    pub Serves-in_registry : (m : Exec Registry A) → Serves (in_registry m)
    Serves-in_registry m = Serves-on_plane _

    -- A reading of the registry.
    pub Serves-reading : (f : Registry → Result A) → Serves (in_registry λ s. (f s, s))
    Serves-reading f = Serves-on_plane _

    pub Serves-on_rate : (m : Exec IssuanceRateLimiter A) → Serves (on_rate m)
    Serves-on_rate m = record { at = λ w. record { held = λ s. s; capacity = refl; gate = refl } }

  pub Serves-raise_when : (b : Bool) (e : Error) → Serves (raise_when b e)
  Serves-raise_when = Follows-raise_when Served Served-Composes

  pub Serves-get_asset : (id : String) → Serves (in_registry (get_asset id))
  Serves-get_asset id = Serves-on_plane _

  pub Serves-now : Serves (now service)
  Serves-now = Serves-on_plane _

  pub Serves-next_token : Serves (next_token service)
  Serves-next_token = record { at = λ w. record { held = λ s. s; capacity = refl; gate = refl } }

  pub Serves-get : (id : String) (at : ℕ) → Serves (on_capabilities (get id at))
  unfolding get
  Serves-get id at = record {
    at = λ w. record {
      held = get-Keeps IsVouched id at w.capabilities;
      capacity = refl;
      gate = refl;
    };
  }

  pub Serves-identity :
      (authorization : String) → Serves (require_service_identity service authorization)
  Serves-identity authorization =
      Follows-same Served Served-Composes _ (require_service_identity_rest service authorization)

  pub Serves-admin : (authorization : String) → Serves (require_admin service authorization)
  unfolding require_admin
  Serves-admin authorization =
      Serves-bind (require_service_identity service authorization) _ (Serves-identity authorization)
        λ who. Serves-bind (raise_when _ _) _ (Serves-raise_when _ _) λ u. Serves-pure who

  pub Serves-legacy_admin :
      (authorization : String) (stated : Option String)
      → Serves (require_legacy_admin service authorization stated)
  unfolding require_legacy_admin
  Serves-legacy_admin authorization stated =
      Serves-bind (require_admin service authorization) _ (Serves-admin authorization)
        λ who. Serves-bind (raise_when _ _) _ (Serves-raise_when _ _) λ u. Serves-pure who
