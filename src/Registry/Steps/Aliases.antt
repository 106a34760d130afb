-- ===== src/Registry/Steps/Aliases.antt =====
-- `attach_alias`, `detach_alias`, `detach_mutable_alias`, `rebind_alias` and `resolve_alias`: what
-- they do to the assets, the marking of an orphan included.
use prototype_cache.Prelude.{String, refl, Bool, not, [], ◌∷◌, none, some, is_some, get_or, str_eq}
use prototype_cache.Prelude.Dict.{text_key}
use prototype_cache.Errors.{alias_immutable, invalid_state_transition, alias_conflict}
use prototype_cache.Models.{text, flag, AliasBinding, available, deleted, state_eq, is_resolvable}
use prototype_cache.Env.{Env}
use prototype_cache.Paths.{normalize_space, qualified_alias}
use prototype_cache.Retention.{require_live}
use prototype_cache.Registry.State.{get_asset, utcnow, audit}
use prototype_cache.Registry.Names.{alias_under_partition, partition_from_scoped_alias, binding_key}
use prototype_cache.Registry.Aliases.{
  store_binding, attach_alias, resolve_alias, detach_alias, detach_mutable_alias, rebind_alias,
}
use prototype_cache.Registry.Steps.Moves.{
  Moves, Moves-bind, Moves-quiet, Moves-lift, Moves-or_fail, Moves-pure, Moves-raise_when,
  Moves-get_asset, Moves-get_binding, Moves-require_name_available, Moves-add_alias_to_asset,
  Moves-remove_alias_from_asset, Moves-mark_for_gc, Moves-bury_name, Moves-audit,
  Moves-store_binding, forget, names_asset, Moves-utcnow,
}

module _ (env : Env) (space alias caller : String) where
  pub detach_alias-Moves : Moves (detach_alias env space alias caller)
  unfolding detach_alias
  detach_alias-Moves = Moves-bind _ _ (Moves-get_binding space alias) λ found.
      Moves-bind _ _ (Moves-raise_when found.1.mutable alias_immutable) λ _.
        Moves-bind _ _ (Moves-lift (binding_key found.1)) λ key.
          Moves-bind _ _ (Moves-or_fail found.1.asset_id invalid_state_transition) λ id.
            Moves-bind (forget key) _ (Moves-quiet (forget key) (λ s. (refl, refl, refl))) λ _.
              Moves-bind _ _ (Moves-remove_alias_from_asset env id key) λ _.
                Moves-bind _ _ (Moves-bury_name env key) λ _.
                  Moves-bind (audit env "alias.detach" key caller "success" (names_asset id) []) _
                    (Moves-audit env "alias.detach" key caller "success" (names_asset id) [])
                    λ _. Moves-mark_for_gc env id caller

  pub resolve_alias-Moves : Moves (resolve_alias env space alias)
  unfolding resolve_alias
  resolve_alias-Moves = Moves-bind _ _ (Moves-get_binding space alias) λ found.
      Moves-bind _ _ (Moves-or_fail found.1.asset_id invalid_state_transition) λ id.
        Moves-bind (get_asset id) _ (Moves-get_asset id) λ asset.
          Moves-bind (utcnow env) _ (Moves-utcnow env) λ now.
            Moves-bind _ _ (Moves-lift (require_live asset now)) λ _.
              Moves-bind _ _ (Moves-raise_when (not (is_resolvable asset)) invalid_state_transition)
                λ _. Moves-pure asset

  pub detach_mutable_alias-Moves : Moves (detach_mutable_alias env space alias caller)
  unfolding detach_mutable_alias
  detach_mutable_alias-Moves = Moves-bind _ _ (Moves-get_binding space alias) λ found.
      Moves-bind _ _ (Moves-raise_when (not found.1.mutable) alias_immutable) λ _.
        Moves-bind _ _ (Moves-or_fail found.1.asset_id invalid_state_transition) λ id.
          Moves-bind _ _ (Moves-lift (binding_key found.1)) λ key.
            Moves-bind _ _ (Moves-remove_alias_from_asset env id key) λ _.
              Moves-bind (utcnow env) _ (Moves-utcnow env) λ now.
                let updated : AliasBinding = record (found.1) {
                  asset_id = none;
                  previous_asset_id = some id;
                  updated_at = now;
                } in
                Moves-bind (store_binding key updated) _ (Moves-store_binding key updated) λ _.
                  Moves-bind
                    (audit env "alias.detach_mutable" key caller "success" (names_asset id)
                      (names_asset ""))
                    _
                    (Moves-audit env "alias.detach_mutable" key caller "success" (names_asset id)
                      (names_asset ""))
                    λ _. Moves-bind _ _ (Moves-mark_for_gc env id caller) λ _. Moves-pure updated

  pub rebind_alias-Moves : (id : String) → Moves (rebind_alias env space alias id caller)
  unfolding rebind_alias
  rebind_alias-Moves id = Moves-bind _ _ (Moves-get_binding space alias) λ found.
      Moves-bind _ _ (Moves-raise_when (not found.1.mutable) alias_immutable) λ _.
        Moves-bind _ _ (Moves-raise_when (is_some found.1.asset_id) invalid_state_transition) λ _.
          Moves-bind (get_asset id) _ (Moves-get_asset id) λ asset.
            Moves-bind _ _
              (Moves-raise_when (not (str_eq asset.space found.1.space)) alias_conflict)
              λ _.
                Moves-bind _ _ (Moves-lift (partition_from_scoped_alias found.1.alias)) λ partition.
                  Moves-bind _ _
                    (Moves-raise_when (not (str_eq asset.partition_id partition)) alias_conflict)
                    λ _.
                      Moves-bind _ _
                        (Moves-raise_when (not (state_eq asset.state available))
                          invalid_state_transition)
                        λ _. Moves-bind _ _ (Moves-lift (binding_key found.1)) λ key.
                          Moves-bind (utcnow env) _ (Moves-utcnow env) λ now.
                            let updated : AliasBinding = record (found.1) {
                              asset_id = some id;
                              previous_asset_id = none;
                              updated_at = now;
                            } in
                            let old = names_asset (get_or found.1.previous_asset_id "") in
                            Moves-bind (store_binding key updated) _
                              (Moves-store_binding key updated)
                              λ _. Moves-bind _ _ (Moves-add_alias_to_asset env id key) λ _.
                                Moves-bind
                                  (audit env "alias.rebind" key caller "success" old
                                    (names_asset id))
                                  _
                                  (Moves-audit env "alias.rebind" key caller "success" old
                                    (names_asset id))
                                  λ _. Moves-pure updated

pub attach_alias-Moves :
    (env : Env) (id alias : String) (mutable : Bool) (caller : String)
    → Moves (attach_alias env id alias mutable caller)
unfolding attach_alias
attach_alias-Moves env id alias mutable caller =
    Moves-bind (get_asset id) _ (Moves-get_asset id) λ asset.
      Moves-bind _ _ (Moves-raise_when (state_eq asset.state deleted) invalid_state_transition) λ _.
        Moves-bind _ _ (Moves-lift (normalize_space asset.space)) λ space.
          Moves-bind _ _ (Moves-lift (alias_under_partition asset.partition_id alias)) λ name.
            Moves-bind _ _ (Moves-require_name_available env space name) λ _.
              Moves-bind _ _ (Moves-lift (qualified_alias space name)) λ key.
                Moves-bind (utcnow env) _ (Moves-utcnow env) λ now.
                  let binding : AliasBinding = record {
                    space = space;
                    alias = name;
                    asset_id = some id;
                    mutable = mutable;
                    previous_asset_id = none;
                    created_at = now;
                    updated_at = now;
                    created_by_service_id = caller;
                  } in
                  let details = ("asset_id", text id) ∷ ("mutable", flag mutable) ∷ [] in
                  Moves-bind (store_binding key binding) _ (Moves-store_binding key binding) λ _.
                    Moves-bind _ _ (Moves-add_alias_to_asset env id key) λ _.
                      Moves-bind (audit env "alias.attach" key caller "success" [] details) _
                        (Moves-audit env "alias.attach" key caller "success" [] details)
                        λ _. Moves-pure binding
