-- ===== src/Guard/Authorized.antt =====
-- What the guard checks before it touches the registry or the object store.
use prototype_cache.Prelude.{
  ◌+◌, ◌<◌, String, true, false, ◌≡◌, ◌↔◌, ap, ◌∙◌, arith, inl, inr, ◌&&◌, is_some,
}
use prototype_cache.Prelude.Dict.{lookup, text_key}
use prototype_cache.Errors.{Result-cases, ok}
use prototype_cache.Env.{Env}
use prototype_cache.ObjectStore.Backend.{ObjectStoreBackend}
use prototype_cache.Capabilities.Scope.{
  Capability, Operation, operation_eq, is_same_path_or_child, require,
}
use prototype_cache.Capabilities.Ledger.{prune, assert_unused}
use prototype_cache.ServicePolicy.{assert_service_bucket_allowed}
use prototype_cache.DataPlane.{DataPlane}
use prototype_cache.Guard.Alias.{ParsedAlias, parse_alias}
use prototype_cache.Guard.Access.{authorize}

-- The capability is for the operation, has not expired at the first reading of the clock, covers
-- the alias, and is not used up at the second; and its service may use the bucket so.
pub record IsAuthorized {S : Type 0} (env : Env) (g : DataPlane S) (operation : Operation)
    (cap : Capability) (alias : String) (parsed : ParsedAlias) : Type 0 where
  pub parses : parse_alias alias ≡ ok parsed
  pub granted : operation ≡ cap.operation
  pub live : env.clock g.registry.readings < cap.expires_at
  pub covers : is_same_path_or_child parsed.qualified cap.scope_prefix ≡ true
  pub unused :
      (cap.single_use
        && is_some (
            lookup cap.capability_id
              (prune (env.clock (g.registry.readings + 1)) g.ledger.consumed)))
      ≡ false
  pub allowed : assert_service_bucket_allowed cap.caller_service_id parsed.space operation ≡ ok tt

operation_eq_lem : (a b : Operation) → operation_eq a b ≡ true → a ≡ b
operation_eq_lem a b h = ground arith

operation_eq_refl : (a : Operation) → operation_eq a a ≡ true
operation_eq_refl a = ground arith

module _ (env : Env) {S : Type 0} (backend : ObjectStoreBackend S) where
  authorize_sound :
      (operation : Operation) (cap : Capability) (alias : String) (g : DataPlane S)
      (parsed : ParsedAlias)
      → (authorize env backend operation cap alias g).0 ≡ ok parsed
      → IsAuthorized env g operation cap alias parsed
  unfolding authorize require assert_unused
  authorize_sound operation cap alias g parsed h = elim (Result-cases (parse_alias alias)) [
    | inr (e, bad) ↦ absurd (ground arith)
    | inl (p, good) ↦
        let same : p ≡ parsed = ground arith in
        record {
          parses = good ∙ ap ok same;
          granted = operation_eq_lem operation cap.operation (ground arith);
          live = ground arith;
          covers = ground arith;
          unused = ground arith;
          allowed = ground arith;
        }
  ]

  authorize_complete :
      (operation : Operation) (cap : Capability) (alias : String) (g : DataPlane S)
      (parsed : ParsedAlias)
      → IsAuthorized env g operation cap alias parsed
      → (authorize env backend operation cap alias g).0 ≡ ok parsed
  unfolding authorize require assert_unused
  authorize_complete operation cap alias g parsed h = ground (
    arith,
    h.parses,
    h.granted,
    h.live,
    h.covers,
    h.unused,
    h.allowed,
    operation_eq_refl operation,
  )

  -- An operation goes on exactly if the capability is for it, has not expired, covers the alias and
  -- is not used up, and its service may use the bucket so.
  pub authorize_iff :
      (operation : Operation) (cap : Capability) (alias : String) (g : DataPlane S)
      (parsed : ParsedAlias)
      → ((authorize env backend operation cap alias g).0 ≡ ok parsed)
        ↔ IsAuthorized env g operation cap alias parsed
  authorize_iff operation cap alias g parsed = (
    authorize_sound operation cap alias g parsed,
    authorize_complete operation cap alias g parsed,
  )
