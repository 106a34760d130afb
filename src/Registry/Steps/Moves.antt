-- ===== src/Registry/Steps/Moves.antt =====
-- Actions that change the assets and the counters only by steps, and the rules for the blocks
-- that are built of them.
use prototype_cache.Prelude.{
  String, ◌≡◌, refl, Bool, [], ◌∷◌, Option, arith, inl, inr, Option-cases,
}
use prototype_cache.Prelude.Dict.{Dict, lookup, erase, text_key}
use prototype_cache.Errors.{Result, Error}
use prototype_cache.Exec.{Exec, modify, pure, lift, or_fail, raise_when, ◌>>=◌}
use prototype_cache.Exec.Follows.{
  Follows, Composes, Follows-bind, Follows-lift, Follows-or_fail, Follows-pure, Follows-raise_when,
}
use prototype_cache.Models.{Asset, Detail, text, AliasBinding}
use prototype_cache.Env.{Env}
use prototype_cache.Registry.State.{Registry, get_asset, utcnow, audit}
use prototype_cache.Registry.Names.{add_member, without}
use prototype_cache.Registry.Accounts.{
  IsWellFormed, quiet, edit, Steps, here, next, Steps-trans, Steps-IsWellFormed,
}
use prototype_cache.Registry.Lifecycle.{mark_for_gc_if_orphaned}
use prototype_cache.Registry.Aliases.{
  store_binding, get_binding, require_name_available, add_alias_to_asset, remove_alias_from_asset,
  bury_name,
}
use prototype_cache.Registry.Steps.Common.{unchanged}
use prototype_cache.Registry.Steps.Retire.{mark_for_gc_if_orphaned-Step}

abbrev pub Moved : Registry → Registry → Type 0
Moved s t = IsWellFormed s → Steps s t

Moved-Composes : Composes Moved
Moved-Composes = record {
  stay = λ s w. here;
  then_on = λ s t u h k w. Steps-trans (h w) (k (Steps-IsWellFormed (h w) w));
}

-- An action changes the assets and the counters only by steps.
abbrev pub Moves : {A : Type 0} → Exec Registry A → Type 0
Moves m = Follows Moved m

module _ {A B : Type 0} where
  -- One action after another.
  pub Moves-bind :
      (m : Exec Registry A) (f : A → Exec Registry B)
      → Moves m
      → ((a : A) → Moves (f a))
      → Moves (m >>= f)
  Moves-bind = Follows-bind Moved Moved-Composes

module _ {A : Type 0} where
  -- What leaves the assets and the counters as they are.
  pub Moves-quiet :
      (m : Exec Registry A)
      → ((s : Registry)
          → ((m s).1.assets ≡ s.assets)
            × ((m s).1.partition_quotas ≡ s.partition_quotas)
            × ((m s).1.bucket_quotas ≡ s.bucket_quotas))
      → Moves m
  Moves-quiet m h = record { at = λ s w. next here (quiet (h s).0 ((h s).1, (h s).2)) }

  pub Moves-lift : (r : Result A) → Moves (lift r)
  Moves-lift = Follows-lift Moved Moved-Composes

  pub Moves-or_fail : (o : Option A) (e : Error) → Moves (or_fail o e)
  Moves-or_fail = Follows-or_fail Moved Moved-Composes

  pub Moves-pure : (a : A) → Moves (pure a)
  Moves-pure = Follows-pure Moved Moved-Composes

pub Moves-raise_when : (b : Bool) (e : Error) → Moves (raise_when b e)
Moves-raise_when = Follows-raise_when Moved Moved-Composes

pub Moves-get_asset : (id : String) → Moves (get_asset id)
Moves-get_asset id = Moves-quiet (get_asset id) (λ s. (ground arith, ground arith, ground arith))

pub Moves-get_binding : (space alias : String) → Moves (get_binding space alias)
unfolding get_binding
Moves-get_binding space alias =
    Moves-quiet (get_binding space alias) (λ s. (ground arith, ground arith, ground arith))

pub Moves-require_name_available :
    (env : Env) (space name : String) → Moves (require_name_available env space name)
unfolding require_name_available
Moves-require_name_available env space name =
    Moves-quiet (require_name_available env space name)
      (λ s. (ground arith, ground arith, ground arith))

pub Moves-add_alias_to_asset : (env : Env) (id key : String) → Moves (add_alias_to_asset env id key)
unfolding add_alias_to_asset
Moves-add_alias_to_asset env id key = record {
  at = λ s w. elim (Option-cases (lookup id s.assets)) [
    | inl absent ↦ next here (quiet (ground arith) (ground arith, ground arith))
    | inr (a, found) ↦
        let b : Asset = record a {
          aliases = add_member key a.aliases;
          updated_at = env.clock s.readings;
        } in
        next here (
          edit id a b found (unchanged a b refl refl refl refl refl refl refl) (ground arith)
            (ground arith, ground arith))
  ];
}

pub Moves-remove_alias_from_asset :
    (env : Env) (id key : String) → Moves (remove_alias_from_asset env id key)
unfolding remove_alias_from_asset
Moves-remove_alias_from_asset env id key = record {
  at = λ s w. elim (Option-cases (lookup id s.assets)) [
    | inl absent ↦ next here (quiet (ground arith) (ground arith, ground arith))
    | inr (a, found) ↦
        let b : Asset = record a {
          aliases = without key a.aliases;
          updated_at = env.clock s.readings;
        } in
        next here (
          edit id a b found (unchanged a b refl refl refl refl refl refl refl) (ground arith)
            (ground arith, ground arith))
  ];
}

pub Moves-mark_for_gc :
    (env : Env) (id caller : String) → Moves (mark_for_gc_if_orphaned env id caller)
Moves-mark_for_gc env id caller = record {
  at = λ s w. next here (mark_for_gc_if_orphaned-Step env id caller s w);
}

pub Moves-bury_name : (env : Env) (key : String) → Moves (bury_name env key)
unfolding bury_name
Moves-bury_name env key =
    Moves-quiet (bury_name env key) (λ s. (ground arith, ground arith, ground arith))

pub Moves-audit :
    (env : Env) (action target caller outcome : String) (before after : Dict String Detail)
    → Moves (audit env action target caller outcome before after)
Moves-audit env action target caller outcome before after =
    Moves-quiet (audit env action target caller outcome before after) (λ s. (refl, refl, refl))

pub Moves-store_binding :
    (key : String) (binding : AliasBinding) → Moves (store_binding key binding)
Moves-store_binding key binding = Moves-quiet (store_binding key binding) (λ s. (refl, refl, refl))

abbrev pub forget : String → Exec Registry (Unit {0})
forget key = modify λ s. record s { aliases = erase key s.aliases }

abbrev pub names_asset : String → Dict String Detail
names_asset id = ("asset_id", text id) ∷ []

pub Moves-utcnow : (env : Env) → Moves (utcnow env)
Moves-utcnow env = Moves-quiet (utcnow env) (λ s. (refl, refl, refl))
