-- ===== src/Guard/Calls.antt =====
-- What an upload through the guard does to the registry up to its reservation is a sequence of the
-- registry's calls.
use prototype_cache.Prelude.{ℕ, String, Bool, ◌≡◌, Option, some, List, arith, length, [], ◌∷◌}
use prototype_cache.Prelude.Int.{ℤ, pos}
use prototype_cache.Prelude.Dict.{text_key}
use prototype_cache.Exec.{Exec}
use prototype_cache.Models.{Asset, inherit}
use prototype_cache.Env.{Env}
use prototype_cache.ObjectStore.Backend.{ObjectStoreBackend}
use prototype_cache.Capabilities.Scope.{Capability, Operation, write}
use prototype_cache.Registry.State.{Registry}
use prototype_cache.Registry.Names.{flags}
use prototype_cache.Registry.Calls.{run, Runs, and_call, reserve}
use prototype_cache.Registry.Steps.Reserve.{IsFresh}
use prototype_cache.Registry.Aliases.{reserve_asset}
use prototype_cache.DataPlane.{DataPlane, on_registry}
use prototype_cache.Guard.Visits.{authorize-Visits}
use prototype_cache.Guard.Alias.{ParsedAlias}
use prototype_cache.Guard.Access.{authorize}

module _ (env : Env) {S : Type 0} (backend : ObjectStoreBackend S) where
  authorize-fresh :
      (operation : Operation) (cap : Capability) (alias : String) (g : DataPlane S)
      → let after = (authorize env backend operation cap alias g).1.registry in
        (after.assets ≡ g.registry.assets) × (after.minted ≡ g.registry.minted)
  unfolding authorize
  authorize-fresh operation cap alias g = (ground arith, ground arith)

  module _ (cap : Capability) (alias : String) (content : List ℕ) (mutable : Bool)
      (mime expected : Option String) (ttl : Option ℤ) where
    abbrev pub reservation : ParsedAlias → Exec Registry Asset
    reservation parsed =
        reserve_asset env parsed.space parsed.partition_id
          (flags ((parsed.alias_in_partition, mutable) ∷ [])) cap.caller_service_id mime [] inherit
          ttl (some (pos (length content)))

    -- The state in which the upload begins.
    pub reservation-Runs :
        (parsed : ParsedAlias) (g : DataPlane S)
        → IsFresh env g.registry
        → Runs env g.registry
            (on_registry
              (reservation parsed)
              (authorize env backend write cap alias g).1).1.registry
    unfolding run
    reservation-Runs parsed g fresh =
        let same = authorize-fresh write cap alias g in
        let requested =
          reserve parsed.space parsed.partition_id
            (flags ((parsed.alias_in_partition, mutable) ∷ [])) cap.caller_service_id mime []
            inherit ttl (some (pos (length content))) in
        and_call requested ((authorize-Visits env backend write cap alias).at g)
          (rw (same.0, same.1) fresh)
