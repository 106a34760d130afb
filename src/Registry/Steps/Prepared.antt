-- ===== src/Registry/Steps/Prepared.antt =====
-- The parts of `reserve_asset` that only read: they change neither the assets nor the counters, and
-- take no identifier.
use prototype_cache.Prelude.{String, ◌≡◌, refl, Bool, [], ◌∷◌, Option, none, some, arith, List, ◌∙◌}
use prototype_cache.Prelude.Int.{ℤ}
use prototype_cache.Prelude.Dict.{Dict, text_key}
use prototype_cache.Errors.{Result}
use prototype_cache.Exec.{Exec, lift, ◌>>=◌}
use prototype_cache.Exec.Follows.{Follows, Composes, Follows-bind, Follows-lift}
use prototype_cache.Env.{Env}
use prototype_cache.Paths.{qualified_alias}
use prototype_cache.Registry.State.{Registry, utcnow}
use prototype_cache.Registry.Names.{alias_under_partition, add_member}
use prototype_cache.Registry.Aliases.{
  require_name_available, require_names, qualified_names, check_reservation,
}

abbrev pub Prepared : Registry → Registry → Type 0
Prepared s t =
    (t.assets ≡ s.assets)
    × (t.partition_quotas ≡ s.partition_quotas)
    × (t.bucket_quotas ≡ s.bucket_quotas)
    × (t.minted ≡ s.minted)

Prepared-Composes : Composes Prepared
Prepared-Composes = record {
  stay = λ s. (refl, refl, refl, refl);
  then_on = λ s t u h k. (k.0 ∙ h.0, k.1 ∙ h.1, k.2 ∙ h.2, k.3 ∙ h.3);
}

-- The assets, the counters and the count of identifiers stay as they are.
abbrev pub Prepares : {A : Type 0} → Exec Registry A → Type 0
Prepares m = Follows Prepared m

module _ {A B : Type 0} where
  Prepares-bind :
      (m : Exec Registry A) (f : A → Exec Registry B)
      → Prepares m
      → ((a : A) → Prepares (f a))
      → Prepares (m >>= f)
  Prepares-bind = Follows-bind Prepared Prepared-Composes

Prepares-lift : {A : Type 0} (r : Result A) → Prepares (lift r)
Prepares-lift = Follows-lift Prepared Prepared-Composes

pub Prepares-utcnow : (env : Env) → Prepares (utcnow env)
Prepares-utcnow env = record { at = λ s. (refl, refl, refl, refl) }

Prepares-require_name :
    (env : Env) (space name : String) → Prepares (require_name_available env space name)
unfolding require_name_available
Prepares-require_name env space name = record {
  at = λ s. (ground arith, ground arith, ground arith, ground arith);
}

pub Prepares-require_names :
    (env : Env) (space partition : String) (specs : Dict String Bool)
    → Prepares (require_names env space partition specs)
unfolding require_names
Prepares-require_names env space partition [] = record { at = λ s. (refl, refl, refl, refl) }
Prepares-require_names env space partition ((alias, mutable) ∷ rest) =
    Prepares-bind _ _ (Prepares-lift (alias_under_partition partition alias)) λ scoped.
      Prepares-bind _ _ (Prepares-require_name env space scoped)
        λ _. Prepares-require_names env space partition rest

pub Prepares-qualified_names :
    (env : Env) (space partition : String) (specs : Dict String Bool) (found : List String)
    → Prepares (qualified_names env space partition specs found)
unfolding qualified_names
Prepares-qualified_names env space partition [] found = record {
  at = λ s. (refl, refl, refl, refl);
}
Prepares-qualified_names env space partition ((alias, mutable) ∷ rest) found =
    Prepares-bind _ _ (Prepares-lift (alias_under_partition partition alias)) λ scoped.
      Prepares-bind _ _ (Prepares-lift (qualified_alias space scoped))
        λ key. Prepares-qualified_names env space partition rest (add_member key found)

pub Prepares-check_reservation :
    (env : Env) (space partition : String) (bytes : Option ℤ)
    → Prepares (check_reservation env space partition bytes)
unfolding check_reservation
Prepares-check_reservation env space partition none = record { at = λ s. (refl, refl, refl, refl) }
Prepares-check_reservation env space partition (some n) = record {
  at = λ s. (ground arith, ground arith, ground arith, ground arith);
}
