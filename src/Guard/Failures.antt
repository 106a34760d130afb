-- ===== src/Guard/Failures.antt =====
-- What is left of an upload that fails.
use prototype_cache.Prelude.{
  ℕ, ◌+◌, String, true, false, ◌≡◌, ◌⊎◌, refl, sym, ap, subst, Option, none, some, List, [], arith,
  inl, inr, is_some, eq_iff,
}
use prototype_cache.Prelude.Int.{pos}
use prototype_cache.Prelude.Dict.{lookup, lookup-insert, text_key}
use prototype_cache.Errors.{Result-cases, ok, err, Error}
use prototype_cache.Models.{Asset, pending, deleted, asset_eq_refl}
use prototype_cache.Env.{Env}
use prototype_cache.Retention.{validate_cleanup_transition}
use prototype_cache.Storage.{ObjectStoreLocation}
use prototype_cache.ObjectStore.Backend.{ObjectStoreBackend}
use prototype_cache.Registry.Lifecycle.{lifecycle_update}
use prototype_cache.Registry.Accounts.{IsWellFormed}
use prototype_cache.Registry.Behaviour.Commit.{commit_asset_outcome}
use prototype_cache.Registry.Behaviour.Cleanup.{deleted_version, lifecycle_update_deleted}
use prototype_cache.DataPlane.{DataPlane}
use prototype_cache.Guard.Upload.{
  Outcome, deferred, reclaim, fence_and_reclaim, cleanup_failed_upload, put_and_commit, upload,
}

module _ (env : Env) {S : Type 0} (backend : ObjectStoreBackend S) where
  -- The asset is deleted, and its payload too unless the store refused that.
  abbrev pub IsFenced : String → ObjectStoreLocation → S → DataPlane S → Type 0
  IsFenced id location store g =
      (b : Asset) × (lookup id g.registry.assets ≡ some b)
      × (b.state ≡ deleted)
      × ((is_some b.payload_deleted_at ≡ true)
          ⊎ ((e : Error) × ((backend.delete location store).0 ≡ err e)))

  module _ (id : String) (location : ObjectStoreLocation) (a : Asset) (named : a.asset_id ≡ id)
      (plain : a.annotations ≡ []) (unpurged : a.payload_deleted_at ≡ none) where
    reclaim-IsFenced :
        (g : DataPlane S)
        → lookup id g.registry.assets ≡ some a
        → a.state ≡ deleted
        → IsFenced id location g.store (reclaim env backend id location g).1
    unfolding reclaim
    reclaim-IsFenced g found gone = elim (Result-cases (backend.delete location g.store).0) [
      | inr (e, refused) ↦ (a, ground arith, gone, inr (e, refused))
      | inl (u, cleared) ↦
          let now = env.clock g.registry.readings in
          let s = record (g.registry) { readings = g.registry.readings + 1 } in
          let updated =
            lifecycle_update_deleted env s a now "upload_failed" true (ground arith)
              (asset_eq_refl a plain) (ground arith)
              (unfold validate_cleanup_transition in ground arith) in
          (
            deleted_version a now true,
            ground (
              arith,
              updated,
              lookup-insert id id (deleted_version a now true) g.registry.assets,
              eq_iff id id,
            ),
            refl,
            inl refl,
          )
    ]

  module _ (id : String) (location : ObjectStoreLocation) (a : Asset) (named : a.asset_id ≡ id)
      (plain : a.annotations ≡ []) (unpurged : a.payload_deleted_at ≡ none)
      (waiting : a.state ≡ pending) where
    fence_and_reclaim-IsFenced :
        (g : DataPlane S)
        → lookup id g.registry.assets ≡ some a
        → IsFenced id location g.store (fence_and_reclaim env backend id location g).1
    unfolding fence_and_reclaim
    fence_and_reclaim-IsFenced g found =
        let now = env.clock g.registry.readings in
        let s = record (g.registry) { readings = g.registry.readings + 1 } in
        let v = deleted_version a now false in
        let updated =
          lifecycle_update_deleted env s a now "upload_failed" false (ground arith)
            (asset_eq_refl a plain) (ground arith)
            (unfold validate_cleanup_transition in ground arith) in
        let t = (lifecycle_update env a deleted now "upload_failed" false s).1 in
        let fenced =
          reclaim-IsFenced id location v named plain unpurged (record g { registry = t })
            (ground (arith, updated, lookup-insert id id v g.registry.assets, eq_iff id id)) refl in
        let path : fence_and_reclaim env backend id location g
            ≡ reclaim env backend id location (record g { registry = t }) =
          ground (arith, updated) in
        subst (λ r. IsFenced id location g.store r.1) (sym path) fenced

    -- The cleanup itself never raises, and leaves what its blocks leave.
    cleanup_failed_upload-ok :
        (g : DataPlane S)
        → (o : Outcome) × (cleanup_failed_upload env backend id location g
            ≡ (ok o, (fence_and_reclaim env backend id location g).1))
    unfolding cleanup_failed_upload
    cleanup_failed_upload-ok g =
        elim (Result-cases (fence_and_reclaim env backend id location g).0) [
          | inl (o, returned) ↦ (o, ground arith)
          | inr (e, raised) ↦ (deferred, ground arith)
        ]

    module _ (caller : String) (content : List ℕ) (mime expected : Option String) where
      -- the failed block leaves the registry as it was
      put_and_commit-failed :
          (g : DataPlane S) (e : Error)
          → IsWellFormed g.registry
          → lookup id g.registry.assets ≡ some a
          → (put_and_commit env backend a location caller content mime expected g).0 ≡ err e
          → (put_and_commit env backend a location caller content mime expected g).1.registry
            ≡ g.registry
      unfolding put_and_commit
      put_and_commit-failed g e w found failed =
          elim (Result-cases (backend.put location content g.store).0) [
            | inr (e', refused) ↦ ground arith
            | inl (stat, stored) ↦
                elim (commit_asset_outcome env g.registry a.asset_id (pos stat.size_bytes)
                  stat.checksum caller mime expected w) [
                    | inl (e', unchanged) ↦ ground (arith, ap (λ x. x.1) unchanged)
                    | inr (old, new, done, rest) ↦ absurd (ground arith)
                  ]
          ]

      -- An upload that fails, for whatever reason, raises that error again, and the asset that was
      -- reserved for it is deleted: it holds no reservation and no reader finds it. Its payload is
      -- recorded as deleted, unless the object store refused the deletion. The registry is
      -- well-formed before, and the asset is stored there, pending and without annotations, as a
      -- reservation of the guard leaves it.
      pub upload-IsFenced :
          (g : DataPlane S) (e : Error)
          → IsWellFormed g.registry
          → lookup id g.registry.assets ≡ some a
          → (put_and_commit env backend a location caller content mime expected g).0 ≡ err e
          → ((upload env backend a location caller content mime expected g).0 ≡ err e)
            × IsFenced id location
                (put_and_commit env backend a location caller content mime expected g).1.store
                (upload env backend a location caller content mime expected g).1
      unfolding upload
      upload-IsFenced g e w found failed =
          let same = put_and_commit-failed g e w found failed in
          let g' = (put_and_commit env backend a location caller content mime expected g).1 in
          let fenced = fence_and_reclaim-IsFenced g' (rw same found) in
          let (o, tidied) = cleanup_failed_upload-ok g' in
          let left : (upload env backend a location caller content mime expected g).1
              ≡ (fence_and_reclaim env backend id location g').1 =
            ground (arith, tidied) in
          (ground (arith, tidied), subst (λ x. IsFenced id location g'.store x) (sym left) fenced)
