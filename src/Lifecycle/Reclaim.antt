-- ===== src/Lifecycle/Reclaim.antt =====
-- A planned purge that nothing hinders: the asset ends deleted, and its bytes are recorded as gone.
use prototype_cache.Prelude.{
  ℕ, String, true, false, ◌≡◌, ◌⊎◌, refl, sym, subst, none, some, arith, inl, inr, str_eq, eq_iff,
}
use prototype_cache.Prelude.Dict.{lookup, lookup-insert, text_key}
use prototype_cache.Errors.{Result, ok}
use prototype_cache.Models.{Asset, deleted, pending, expired, asset_eq_entries, entries_in}
use prototype_cache.Env.{Env}
use prototype_cache.Retention.{validate_cleanup_transition}
use prototype_cache.ObjectStore.Backend.{ObjectStoreBackend}
use prototype_cache.Registry.Lifecycle.{lifecycle_update}
use prototype_cache.Registry.Behaviour.Cleanup.{deleted_version, lifecycle_update_deleted}
use prototype_cache.DataPlane.{DataPlane}
use prototype_cache.Lifecycle.Policy.{SweepPolicy, Action}
use prototype_cache.Lifecycle.Sweep.{
  Verdict, done, location_of, quota_relieved, pressure_relieved, purge_payload, transition,
  apply_action,
}
use prototype_cache.Lifecycle.Justified.Causes.{
  Cause, abandoned, overdue, lapsed, unpurged, evicted,
}

module _ (env : Env) {S : Type 0} (backend : ObjectStoreBackend S) (policy : SweepPolicy)
    (now : ℕ) where
  -- The asset is deleted and its bytes are recorded as gone.
  abbrev pub IsReclaimed : String → DataPlane S → Type 0
  IsReclaimed id g =
      (b : Asset) × (lookup id g.registry.assets ≡ some b)
      × (b.state ≡ deleted)
      × (b.payload_deleted_at ≡ some now)

  abbrev Reclaims : String → Result Verdict × DataPlane S → Type 0
  Reclaims id r = (r.0 ≡ ok done) × IsReclaimed id r.1

  purge_payload-Reclaims :
      (a : Asset) (action : Action) (g : DataPlane S)
      → entries_in a.annotations a.annotations ≡ true
      → a.payload_deleted_at ≡ none
      → lookup a.asset_id g.registry.assets ≡ some a
      → a.state ≡ deleted
      → action.asset.asset_id ≡ a.asset_id
      → (backend.delete (location_of a) g.store).0 ≡ ok tt
      → Reclaims a.asset_id (purge_payload env backend policy now action g)
  unfolding purge_payload
  purge_payload-Reclaims a action g whole there found gone same cleared =
      let v = deleted_version a now true in
      let updated =
        lifecycle_update_deleted env g.registry a now action.reason true found
          (asset_eq_entries a whole) (ground arith)
          (unfold validate_cleanup_transition in ground arith) in
      (
        ground (arith, updated),
        (
          v,
          ground (
            arith,
            updated,
            lookup-insert a.asset_id a.asset_id v g.registry.assets,
            eq_iff a.asset_id a.asset_id,
          ),
          refl,
          refl,
        ),
      )

  module _ (a : Asset) (reason : String) (g : DataPlane S) where
    abbrev purging : Action
    purging = record { asset = a; state = deleted; reason = reason; purge = true }

    apply_action-Reclaims :
        (str_eq reason "quota_lfu" ≡ false) × (str_eq reason "pressure_lfu" ≡ false)
        → entries_in a.annotations a.annotations ≡ true
        → a.payload_deleted_at ≡ none
        → lookup a.asset_id g.registry.assets ≡ some a
        → (a.state ≡ deleted) ⊎ ((a.state ≡ pending) ⊎ (a.state ≡ expired))
        → (backend.delete (location_of a) g.store).0 ≡ ok tt
        → Reclaims a.asset_id (apply_action env backend policy now purging g)
    unfolding apply_action quota_relieved pressure_relieved transition
    apply_action-Reclaims timed whole there found (inl gone) cleared =
        let same = asset_eq_entries a whole in
        let path : apply_action env backend policy now purging g
            ≡ purge_payload env backend policy now purging g =
          ground (arith, timed) in
        subst (Reclaims a.asset_id) (sym path)
          (purge_payload-Reclaims a purging g whole there found gone refl cleared)
    apply_action-Reclaims timed whole there found (inr idle) cleared =
        let same = asset_eq_entries a whole in
        let v = deleted_version a now false in
        let updated =
          lifecycle_update_deleted env g.registry a now reason false found same (ground arith)
            (unfold validate_cleanup_transition in ground arith) in
        let t = (lifecycle_update env a deleted now reason false g.registry).1 in
        let fenced = record g { registry = t } in
        let path : apply_action env backend policy now purging g
            ≡ purge_payload env backend policy now purging fenced =
          ground (arith, timed, updated) in
        subst (Reclaims a.asset_id) (sym path) (
          purge_payload-Reclaims v purging fenced whole there
            (ground (
              arith,
              updated,
              lookup-insert a.asset_id a.asset_id v g.registry.assets,
              eq_iff a.asset_id a.asset_id,
            ))
            refl refl cleared)

  -- A planned action that purges reaches its end: applied to a registry that still has the asset as
  -- it was planned, not purged before and with no annotation key twice, and to a store that performs
  -- the deletion, it returns as applied, the asset is deleted, and its bytes are recorded as gone at
  -- the time of the sweep.
  pub apply_action-IsReclaimed :
      (planned : ℕ) (act : Action) (g : DataPlane S)
      → Cause policy planned act
      → act.purge ≡ true
      → entries_in act.asset.annotations act.asset.annotations ≡ true
      → act.asset.payload_deleted_at ≡ none
      → lookup act.asset.asset_id g.registry.assets ≡ some act.asset
      → (backend.delete (location_of act.asset) g.store).0 ≡ ok tt
      → ((apply_action env backend policy now act g).0 ≡ ok done)
        × IsReclaimed act.asset.asset_id (apply_action env backend policy now act g).1
  apply_action-IsReclaimed planned act g (abandoned a waiting old) purges whole there found
        cleared =
      apply_action-Reclaims a "orphan" g (refl, refl) whole there found (inr (inl waiting)) cleared
  apply_action-IsReclaimed planned act g (overdue a t live deadline past) purges whole there found
        cleared =
      cc
  apply_action-IsReclaimed planned act g (lapsed a grace state given over) purges whole there found
        cleared =
      apply_action-Reclaims a "ttl_expired" g (refl, refl) whole there found (inr (inr state))
        cleared
  apply_action-IsReclaimed planned act g (unpurged a gone left) purges whole there found cleared =
      apply_action-Reclaims a "orphan" g (refl, refl) whole there found (inl gone) cleared
  apply_action-IsReclaimed planned act g (evicted a reason live free pressed why) purges whole there
        found cleared =
      cc
