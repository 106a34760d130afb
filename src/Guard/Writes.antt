-- ===== src/Guard/Writes.antt =====
-- What a write that succeeds has checked and stored, and that one that is not authorized does
-- nothing.
use prototype_cache.Prelude.{
  ℕ, String, Bool, not, ◌≡◌, sym, ap, subst, ◌∙◌, Option, none, some, List, arith, inl, inr, eq_iff,
}
use prototype_cache.Prelude.Int.{ℤ, pos}
use prototype_cache.Prelude.Dict.{lookup, lookup-insert, text_key}
use prototype_cache.Errors.{Result-cases, ok, err, Error, validation}
use prototype_cache.Exec.{resume-at, lift, raise_when}
use prototype_cache.Models.{Asset, available, pending, state_eq}
use prototype_cache.Env.{Env}
use prototype_cache.Storage.{ObjectStoreLocation, for_asset}
use prototype_cache.ObjectStore.{StoredObjectStat}
use prototype_cache.ObjectStore.Backend.{ObjectStoreBackend}
use prototype_cache.Capabilities.Scope.{Capability, write}
use prototype_cache.Capabilities.Ledger.{record_successful_use}
use prototype_cache.Registry.State.{Registry, get_asset}
use prototype_cache.Registry.Lifecycle.{commit_asset}
use prototype_cache.Registry.Accounts.{IsWellFormed}
use prototype_cache.Registry.Steps.Reserve.{IsFresh}
use prototype_cache.Registry.Behaviour.Commit.{commit_asset_outcome}
use prototype_cache.Registry.Calls.{Reachable}
use prototype_cache.Registry.Calls.Accounting.{Reachable-IsWellFormed}
use prototype_cache.Registry.Calls.Sequences.{Runs-Reachable}
use prototype_cache.DataPlane.{DataPlane, on_registry, on_store, on_ledger, read_clock}
use prototype_cache.Guard.Alias.{ParsedAlias}
use prototype_cache.Guard.Access.{authorize}
use prototype_cache.Guard.Upload.{put_and_commit, upload, after_reservation, write_object}
use prototype_cache.Guard.Authorized.{IsAuthorized, authorize_iff}
use prototype_cache.Guard.Calls.{reservation, reservation-Runs}

module _ (env : Env) {S : Type 0} (backend : ObjectStoreBackend S) where
  -- The asset is what the registry has under its identifier, available, with the size that the
  -- object store reported when it took the content.
  pub record IsStored (content : List ℕ) (asset : Asset) (s : Registry) : Type 0 where
    pub id : String
    pub stored : lookup id s.assets ≡ some asset
    pub live : asset.state ≡ available
    pub unreserved : asset.reserved_bytes ≡ none
    pub location : ObjectStoreLocation
    pub store : S
    pub stat : StoredObjectStat
    pub taken : (backend.put location content store).0 ≡ ok stat
    pub size : asset.size_bytes ≡ some stat.size_bytes

  module _ (reserved : Asset) (l : ObjectStoreLocation) (caller : String) (content : List ℕ)
      (mime expected : Option String) (asset : Asset) where
    commit-IsStored :
        (stat : StoredObjectStat) (store : S) (s : Registry)
        → IsWellFormed s
        → (backend.put l content store).0 ≡ ok stat
        → (commit_asset env reserved.asset_id
            (pos stat.size_bytes)
            stat.checksum
            caller
            mime
            expected
            s).0
          ≡ ok asset
        → IsStored content asset
            (commit_asset env reserved.asset_id
              (pos stat.size_bytes)
              stat.checksum
              caller
              mime
              expected
              s).1
    commit-IsStored stat store s w taken h =
        elim (commit_asset_outcome env s reserved.asset_id (pos stat.size_bytes) stat.checksum
          caller mime expected w) [
            | inl (e, refused) ↦ absurd (ground (arith, ap (λ x. x.0) refused))
            | inr (old, new, done, c) ↦
                let same : new ≡ asset = ground arith in
                record {
                  id = reserved.asset_id;
                  stored = ground (
                    arith,
                    c.stored,
                    lookup-insert reserved.asset_id reserved.asset_id new s.assets,
                    eq_iff reserved.asset_id reserved.asset_id,
                  );
                  live = ground (arith, c.live);
                  unreserved = ground (arith, c.released);
                  location = l;
                  store = store;
                  stat = stat;
                  taken = taken;
                  size = ground (arith, c.holds, c.sized);
                }
          ]

    put_and_commit-IsStored :
        (g : DataPlane S)
        → IsWellFormed g.registry
        → (put_and_commit env backend reserved l caller content mime expected g).0 ≡ ok asset
        → IsStored content asset
            (put_and_commit env backend reserved l caller content mime expected g).1.registry
    unfolding put_and_commit
    put_and_commit-IsStored g w h =
        let (locked, got, e1) = resume-at (on_registry (get_asset reserved.asset_id) g) _ asset h in
        let g1 = (on_registry (get_asset reserved.asset_id) g).1 in
        let h1 = ap (λ x. x.0) (sym e1) ∙ h in
        let (u, waits, e2) =
          resume-at (raise_when (not (state_eq locked.state pending)) validation g1) _ asset h1 in
        let g2 = (raise_when (not (state_eq locked.state pending)) validation g1).1 in
        let h2 = ap (λ x. x.0) (sym e2) ∙ h1 in
        let (stat, taken, e3) = resume-at (on_store (backend.put l content) g2) _ asset h2 in
        let g3 = (on_store (backend.put l content) g2).1 in
        let h3 = ap (λ x. x.0) (sym e3) ∙ h2 in
        let same : g3.registry ≡ g.registry = ground arith in
        let stored = commit-IsStored stat g2.store g3.registry (rw same w) taken h3 in
        subst (λ x. IsStored content asset x.1.registry) (sym (e1 ∙ e2 ∙ e3)) stored

  upload-ok :
      (reserved : Asset) (l : ObjectStoreLocation) (caller : String) (content : List ℕ)
      (mime expected : Option String) (g : DataPlane S) (asset : Asset)
      → (upload env backend reserved l caller content mime expected g).0 ≡ ok asset
      → upload env backend reserved l caller content mime expected g
        ≡ put_and_commit env backend reserved l caller content mime expected g
  unfolding upload
  upload-ok reserved l caller content mime expected g asset h =
      elim (Result-cases (put_and_commit env backend reserved l caller content mime expected g).0) [
        | inl (x, fine) ↦ ground arith
        | inr (e, failed) ↦ absurd (ground arith)
      ]

  module _ (cap : Capability) (content : List ℕ) (mime expected : Option String)
      (reserved asset : Asset) where
    after_reservation-IsStored :
        (g : DataPlane S)
        → IsWellFormed g.registry
        → (after_reservation env backend cap content mime expected reserved g).0 ≡ ok asset
        → IsStored content asset
            (after_reservation env backend cap content mime expected reserved g).1.registry
    unfolding after_reservation
    after_reservation-IsStored g w h =
        let place = for_asset reserved.space reserved.partition_id reserved.asset_id in
        let (l, placed, e1) = resume-at (lift place g) _ asset h in
        let h1 = ap (λ x. x.0) (sym e1) ∙ h in
        let write = upload env backend reserved l cap.caller_service_id content mime expected in
        let (new, done, e2) = resume-at (write g) _ asset h1 in
        let h2 = ap (λ x. x.0) (sym e2) ∙ h1 in
        let plain = upload-ok reserved l cap.caller_service_id content mime expected g new done in
        let stored =
          put_and_commit-IsStored reserved l cap.caller_service_id content mime expected new g w
            (ap (λ x. x.0) (sym plain) ∙ done) in
        let g2 = (write g).1 in
        let kept : IsStored content new g2.registry =
          subst (λ x. IsStored content new x.1.registry) (sym plain) stored in
        let g3 = (read_clock env g2).1 in
        let used_at = env.clock g2.registry.readings in
        let (u, recorded, e3) =
          resume-at (on_ledger (record_successful_use cap used_at) g3) _ asset h2 in
        let h3 = ap (λ x. x.0) (sym e3) ∙ h2 in
        let same : new ≡ asset = ground arith in
        let at_end = (on_ledger (record_successful_use cap used_at) g3).1.registry in
        let final : IsStored content asset at_end =
          subst (λ x. IsStored content x at_end) same
            (record {
              id = kept.id;
              stored = kept.stored;
              live = kept.live;
              unreserved = kept.unreserved;
              location = kept.location;
              store = kept.store;
              stat = kept.stat;
              taken = kept.taken;
              size = kept.size;
            }) in
        subst (λ x. IsStored content asset x.1.registry) (sym (e1 ∙ e2 ∙ e3)) final

  authorize-aside :
      (cap : Capability) (alias : String) (g : DataPlane S)
      → let after = (authorize env backend write cap alias g).1 in
        (after.store ≡ g.store)
        × (after.registry ≡ record (g.registry) { readings = after.registry.readings })
  unfolding authorize
  authorize-aside cap alias g = (ground arith, ground arith)

  -- A write that the checks refuse raises their error, and changes neither the store nor anything
  -- of the registry but how often its clock was read.
  pub write_object-refused :
      (cap : Capability) (alias : String) (content : List ℕ) (mutable : Bool)
      (mime expected : Option String) (ttl : Option ℤ) (g : DataPlane S) (e : Error)
      → (authorize env backend write cap alias g).0 ≡ err e
      → let after = write_object env backend cap alias content mutable mime expected ttl g in
        (after.0 ≡ err e)
        × (after.1.store ≡ g.store)
        × (after.1.registry ≡ record (g.registry) { readings = after.1.registry.readings })
  unfolding write_object
  write_object-refused cap alias content mutable mime expected ttl g e h =
      let (store, registry) = authorize-aside cap alias g in
      (ground arith, ground (arith, store), ground (arith, registry))

  -- A write that returns gives the asset that the registry then has under its identifier:
  -- available, without a reservation, and of the size that the object store reported when it took
  -- the content; and the capability was for writing, had not expired, covered the alias and was not
  -- used up, and its service may write the bucket. The registry is one that calls reach, and the
  -- identifier of the reservation is new.
  pub write_object-IsStored :
      (grace : ℕ) (cap : Capability) (alias : String) (content : List ℕ) (mutable : Bool)
      (mime expected : Option String) (ttl : Option ℤ) (g : DataPlane S) (asset : Asset)
      → Reachable env grace g.registry
      → IsFresh env g.registry
      → (write_object env backend cap alias content mutable mime expected ttl g).0 ≡ ok asset
      → ((parsed : ParsedAlias) × IsAuthorized env g write cap alias parsed)
        × IsStored content asset
            (write_object env backend cap alias content mutable mime expected ttl g).1.registry
  unfolding write_object
  write_object-IsStored grace cap alias content mutable mime expected ttl g asset r fresh h =
      let (parsed, passed, e1) = resume-at (authorize env backend write cap alias g) _ asset h in
      let h1 = ap (λ x. x.0) (sym e1) ∙ h in
      let g1 = (authorize env backend write cap alias g).1 in
      let ask = reservation env backend cap alias content mutable mime expected ttl parsed in
      let (reserved, granted, e2) = resume-at (on_registry ask g1) _ asset h1 in
      let h2 = ap (λ x. x.0) (sym e2) ∙ h1 in
      let g2 = (on_registry ask g1).1 in
      let runs =
        reservation-Runs env backend cap alias content mutable mime expected ttl parsed g fresh in
      let w = Reachable-IsWellFormed env grace (Runs-Reachable env grace r runs) in
      (
        (parsed, (authorize_iff env backend write cap alias g parsed).0 passed),
        subst (λ x. IsStored content asset x.1.registry) (sym (e1 ∙ e2))
            (after_reservation-IsStored cap content mime expected reserved asset g2 w h2),
      )
