-- ===== src/DataPlane/Visits.antt =====
-- Actions that change the registry by calls of its operations only, and the rules for the blocks
-- that are built of them.
use prototype_cache.Prelude.{ℕ, String, Bool, ◌≡◌, refl, sym, subst, arith}
use prototype_cache.Prelude.Dict.{text_key}
use prototype_cache.Errors.{Result, Error}
use prototype_cache.Exec.{Exec, pure, lift, raise_when, if_else, ◌>>=◌}
use prototype_cache.Exec.Follows.{
  Follows, Composes, Follows-bind, Follows-pure, Follows-lift, Follows-if_else, Follows-raise_when,
}
use prototype_cache.Models.{Asset, AssetState}
use prototype_cache.Env.{Env}
use prototype_cache.Capabilities.Ledger.{SingleUseLedger}
use prototype_cache.Registry.State.{Registry, get_asset}
use prototype_cache.Registry.Lifecycle.{lifecycle_update}
use prototype_cache.Registry.Calls.{Call, run, IsAdmissible, Runs, stay, and_call, tick, clean_up}
use prototype_cache.Registry.Calls.Sequences.{Runs-trans}
use prototype_cache.DataPlane.{DataPlane, on_registry, on_store, on_ledger, read_clock}

module _ (env : Env) {S : Type 0} where
  -- The registry of the second state is one that calls reach from that of the first.
  abbrev pub Moved : DataPlane S → DataPlane S → Type 0
  Moved g h = Runs env g.registry h.registry

  pub Moved-Composes : Composes Moved
  Moved-Composes = record { stay = λ g. stay; then_on = λ f g h. Runs-trans env }

  -- The registry after the action is one that calls reach from the registry before.
  abbrev pub Visits : {A : Type 0} → Exec (DataPlane S) A → Type 0
  Visits m = Follows Moved m

  module _ {A B : Type 0} where
    pub Visits-bind :
        (m : Exec (DataPlane S) A) (f : A → Exec (DataPlane S) B)
        → Visits m
        → ((a : A) → Visits (f a))
        → Visits (m >>= f)
    Visits-bind = Follows-bind Moved Moved-Composes

  module _ {A : Type 0} where
    -- What leaves the registry as it is.
    pub Visits-aside :
        (m : Exec (DataPlane S) A) → ((g : DataPlane S) → (m g).1.registry ≡ g.registry) → Visits m
    Visits-aside m h = record { at = λ g. subst (λ t. Runs env g.registry t) (sym (h g)) stay }

    pub Visits-pure : (a : A) → Visits (pure a)
    Visits-pure = Follows-pure Moved Moved-Composes

    pub Visits-lift : (r : Result A) → Visits (lift r)
    Visits-lift = Follows-lift Moved Moved-Composes

    pub Visits-on_store : (m : Exec S A) → Visits (on_store m)
    Visits-on_store m = Visits-aside (on_store m) (λ g. refl)

    pub Visits-on_ledger : (m : Exec SingleUseLedger A) → Visits (on_ledger m)
    Visits-on_ledger m = Visits-aside (on_ledger m) (λ g. refl)

    pub Visits-if_else :
        (b : Bool) (m n : Exec (DataPlane S) A) → Visits m → Visits n → Visits (if_else b m n)
    Visits-if_else = Follows-if_else Moved Moved-Composes

    -- An operation that is a call, admissible in every state.
    pub Visits-call :
        (c : Call) (m : Exec Registry A)
        → ((s : Registry) → IsAdmissible env c s)
        → ((s : Registry) → (m s).1 ≡ run env c s)
        → Visits (on_registry m)
    Visits-call c m free same = record {
      at = λ g.
          subst (λ t. Runs env g.registry t) (sym (same g.registry))
            (and_call c stay (free g.registry));
    }

  pub Visits-raise_when : (b : Bool) (e : Error) → Visits (raise_when b e)
  Visits-raise_when = Follows-raise_when Moved Moved-Composes

  pub Visits-get_asset : (id : String) → Visits (on_registry (get_asset id))
  Visits-get_asset id = Visits-aside (on_registry (get_asset id)) (λ g. ground arith)

  pub Visits-read_clock : Visits (read_clock env)
  unfolding run
  Visits-read_clock =
      Visits-call tick (prototype_cache.Registry.State.utcnow env) (λ s. tt) (λ s. refl)

  pub Visits-lifecycle_update :
      (a : Asset) (x : AssetState) (now : ℕ) (reason : String) (purged : Bool)
      → Visits (on_registry (lifecycle_update env a x now reason purged))
  unfolding run
  Visits-lifecycle_update a x now reason purged =
      Visits-call (clean_up a x now reason purged) (lifecycle_update env a x now reason purged)
        (λ s. tt) (λ s. refl)
