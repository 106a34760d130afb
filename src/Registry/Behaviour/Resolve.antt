-- ===== src/Registry/Behaviour/Resolve.antt =====
-- `resolve_alias`: which assets a reader gets.
use prototype_cache.Prelude.{
  String, ◌≡◌, ◌↔◌, some, arith, Option-cases, inl, inr, ap, sym, ◌∙◌, ◌+◌,
}
use prototype_cache.Prelude.Dict.{lookup, text_key}
use prototype_cache.Errors.{Result, Result-cases, ok, err}
use prototype_cache.Models.{Asset, AliasBinding, available, is_resolvable}
use prototype_cache.Env.{Env}
use prototype_cache.Exec.{resume-ok, lift}
use prototype_cache.Paths.{normalize_space, normalize_relative_alias, qualified_alias}
use prototype_cache.Retention.{require_live}
use prototype_cache.Retention.Deadlines.{IsWithin, is_past_iff}
use prototype_cache.Registry.State.{Registry}
use prototype_cache.Registry.Aliases.{get_binding, resolve_alias}

-- The registry binds the name, under its key, to the asset, which is available, and the time that
-- the operation reads lies before the asset's deadline, if there is one.
pub record IsServed (env : Env) (s : Registry) (space alias : String) (a : Asset) : Type 0 where
  pub bucket : String
  pub name : String
  pub key : String
  pub binding : AliasBinding
  pub asset_id : String
  pub in_bucket : normalize_space space ≡ ok bucket
  pub named : normalize_relative_alias alias ≡ ok name
  pub keyed : qualified_alias bucket name ≡ ok key
  pub bound : lookup key s.aliases ≡ some binding
  pub names : binding.asset_id ≡ some asset_id
  pub stored : lookup asset_id s.assets ≡ some a
  pub live : a.state ≡ available
  pub fresh : IsWithin a.expires_at (env.clock s.readings)

get_binding-state : (space alias : String) (s : Registry) → (get_binding space alias s).1 ≡ s
unfolding get_binding
get_binding-state space alias s = ground arith

-- What a binding that is found is: the one under the key of the name.
get_binding-at :
    (space alias : String) (s : Registry) (key : String) (binding : AliasBinding)
    → (get_binding space alias s).0 ≡ ok (key, binding)
    → (bucket : String) × (name : String) × (normalize_space space ≡ ok bucket)
      × (normalize_relative_alias alias ≡ ok name)
      × (qualified_alias bucket name ≡ ok key)
      × (lookup key s.aliases ≡ some binding)
unfolding get_binding
get_binding-at space alias s key binding h =
    let (bucket, spaced, rest) = resume-ok (lift (normalize_space space) s) _ (key, binding) h in
    let (name, named, rest') =
      resume-ok (lift (normalize_relative_alias alias) s) _ (key, binding) rest in
    let (key', keyed, rest'') =
      resume-ok (lift (qualified_alias bucket name) s) _ (key, binding) rest' in
    elim (Option-cases (lookup key' s.aliases)) [
      | inl absent ↦ absurd (ground arith)
      | inr (b, found) ↦
          let same : key' ≡ key = ground arith in
          let one : b ≡ binding = ground arith in
          (bucket, name, spaced, named, keyed ∙ ap ok same, rw (sym same) (found ∙ ap some one))
    ]

get_binding-finds :
    (space alias : String) (s : Registry) (bucket name key : String) (binding : AliasBinding)
    → normalize_space space ≡ ok bucket
    → normalize_relative_alias alias ≡ ok name
    → qualified_alias bucket name ≡ ok key
    → lookup key s.aliases ≡ some binding
    → (get_binding space alias s).0 ≡ ok (key, binding)
unfolding get_binding
get_binding-finds space alias s bucket name key binding spaced named keyed found = ground arith

resolve_alias-unbound :
    (env : Env) (space alias : String) (s : Registry) (e : prototype_cache.Errors.Error)
    → (get_binding space alias s).0 ≡ err e
    → (resolve_alias env space alias s).0 ≡ err e
unfolding resolve_alias
resolve_alias-unbound env space alias s e h = ground (arith, get_binding-state space alias s)

resolve_alias-bound :
    (env : Env) (space alias : String) (s : Registry) (a : Asset) (key : String)
    (binding : AliasBinding)
    → (get_binding space alias s).0 ≡ ok (key, binding)
    → (resolve_alias env space alias s).0 ≡ ok a
    → IsServed env s space alias a
unfolding resolve_alias require_live is_resolvable
resolve_alias-bound env space alias s a key binding bound h = elim (Option-cases binding.asset_id) [
  | inl detached ↦ absurd (ground (arith, get_binding-state space alias s))
  | inr (id, names) ↦
      let (bucket, name, spaced, named, keyed, found) =
        get_binding-at space alias s key binding bound in
      record {
        bucket = bucket;
        name = name;
        key = key;
        binding = binding;
        asset_id = id;
        in_bucket = spaced;
        named = named;
        keyed = keyed;
        bound = found;
        names = names;
        stored = ground (arith, get_binding-state space alias s);
        live = ground (arith, get_binding-state space alias s);
        fresh =
            (is_past_iff a.expires_at (env.clock s.readings)).0
              (ground (arith, get_binding-state space alias s));
      }
]

-- An alias that resolves reads the clock once.
pub resolve_alias-readings :
    (env : Env) (space alias : String) (s : Registry) (a : Asset)
    → (resolve_alias env space alias s).0 ≡ ok a
    → (resolve_alias env space alias s).1.readings ≡ s.readings + 1
unfolding resolve_alias
resolve_alias-readings env space alias s a h = ground (arith, get_binding-state space alias s)

resolve_alias-serves :
    (env : Env) (space alias : String) (s : Registry) (a : Asset)
    → IsServed env s space alias a
    → (resolve_alias env space alias s).0 ≡ ok a
unfolding resolve_alias require_live is_resolvable
resolve_alias-serves env space alias s a h =
    let found =
      get_binding-finds space alias s h.bucket h.name h.key h.binding h.in_bucket h.named h.keyed
        h.bound in
    let fresh = (is_past_iff a.expires_at (env.clock s.readings)).1 h.fresh in
    ground (arith, get_binding-state space alias s, found, h.names, h.stored, h.live, fresh)

-- An alias resolves to an asset exactly if the registry has a binding under the key of its name that
-- names that asset, the asset is available, and the time that is read lies before its deadline, if it
-- has one: an expired, deleted or pending asset, one at or past its deadline, and a detached alias
-- resolve to nothing.
pub resolve_alias_iff :
    (env : Env) (space alias : String) (s : Registry) (a : Asset)
    → ((resolve_alias env space alias s).0 ≡ ok a) ↔ IsServed env s space alias a
resolve_alias_iff env space alias s a = (
  λ h. elim (Result-cases (get_binding space alias s).0) [
    | inl ((key, binding), bound) ↦ resolve_alias-bound env space alias s a key binding bound h
    | inr (e, unbound) ↦ absurd (refused e (resolve_alias-unbound env space alias s e unbound) h)
  ],
  resolve_alias-serves env space alias s a,
)
  where
    refused :
        (e : prototype_cache.Errors.Error)
        → (resolve_alias env space alias s).0 ≡ err e
        → (resolve_alias env space alias s).0 ≡ ok a
        → ⊥
    refused e h k = cc
