-- ===== src/Lifecycle/Fence.antt =====
-- The order of a purge: the registry has the asset deleted before its bytes go, and they do go.
use prototype_cache.Prelude.{
  ℕ, String, Bool, true, false, not, ◌≡◌, ◌⊎◌, refl, subst, some, arith, inl, inr, is_some,
  Bool-cases, Option-cases,
}
use prototype_cache.Prelude.Dict.{lookup, text_key}
use prototype_cache.Errors.{Result, Result-cases, ok, err}
use prototype_cache.Exec.{Exec, resume, pure, if_else, ◌>>=◌}
use prototype_cache.Models.{Asset, AssetState, deleted, state_eq, asset_eq}
use prototype_cache.Env.{Env}
use prototype_cache.ObjectStore.Backend.{ObjectStoreBackend}
use prototype_cache.Registry.State.{get_asset}
use prototype_cache.Registry.Calls.{Reachable}
use prototype_cache.Registry.Calls.History.{IsLater}
use prototype_cache.Registry.Calls.Sequences.{Runs-Reachable, Runs-IsLater}
use prototype_cache.DataPlane.{DataPlane, on_registry}
use prototype_cache.DataPlane.Visits.{Visits, Visits-get_asset}
use prototype_cache.Lifecycle.Policy.{SweepPolicy, Action}
use prototype_cache.Lifecycle.Sweep.{
  done, passed_over, location_of, quota_relieved, pressure_relieved, purge_payload, transition,
  apply_action,
}
use prototype_cache.Lifecycle.Effects.{
  purge_payload-Visits, quota_relieved-Visits, pressure_relieved-Visits, transition-Visits,
}

module _ (env : Env) {S : Type 0} (backend : ObjectStoreBackend S) (policy : SweepPolicy) (now : ℕ)
    (grace : ℕ) where
  -- The bytes are as before, or the store was asked to delete those at the bucket and the storage key
  -- of the asset that the registry has under the identifier, and has deleted.
  abbrev pub IsSwept : String → S → DataPlane S → Type 0
  IsSwept id before g =
      (g.store ≡ before)
      ⊎ ((b : Asset) × (lookup id g.registry.assets ≡ some b)
          × (b.state ≡ deleted)
          × (g.store
              ≡ (backend.delete (record { bucket = b.space; key = b.storage_key }) before).1))

  record Spares {A : Type 0} (id : String) (m : Exec (DataPlane S) A) : Type 0 where
    pub at : (g : DataPlane S) → Reachable env grace g.registry → IsSwept id g.store (m g).1

  module _ {A : Type 0} (id : String) where
    Spares-pure : (a : A) → Spares id (pure a)
    Spares-pure a = record { at = λ g r. inl refl }

    Spares-if_else :
        (b : Bool) (m n : Exec (DataPlane S) A)
        → Spares id m
        → Spares id n
        → Spares id (if_else b m n)
    Spares-if_else true m n h k = h
    Spares-if_else false m n h k = k

  module _ {A B : Type 0} (id : String) where
    resume-Spares :
        (before : S) (r : Result A) (g : DataPlane S) (f : A → Exec (DataPlane S) B)
        → Reachable env grace g.registry
        → g.store ≡ before
        → ((a : A) → Spares id (f a))
        → IsSwept id before (resume (r, g) f).1
    resume-Spares before (ok a) g f r same k =
        subst (λ x. IsSwept id x (f a g).1) same ((k a).at g r)
    resume-Spares before (err e) g f r same k = inl same

    Spares-bind :
        (m : Exec (DataPlane S) A) (f : A → Exec (DataPlane S) B)
        → Visits env m
        → ((g : DataPlane S) → (m g).1.store ≡ g.store)
        → ((a : A) → Spares id (f a))
        → Spares id (m >>= f)
    Spares-bind m f h same k = record {
      at = λ g r.
          let (out, t) = m g in
          resume-Spares g.store out t f (Runs-Reachable env grace r (h.at g)) (same g) k;
    }

  stays_deleted : (a b : Asset) → IsLater a b → a.state ≡ deleted → b.state ≡ deleted
  stays_deleted a b h e = ground (arith, h.state)

  quota_relieved-store :
      (action : Action) (g : DataPlane S)
      → (quota_relieved env backend policy now action g).1.store ≡ g.store
  unfolding quota_relieved
  quota_relieved-store action g = ground arith

  pressure_relieved-store :
      (action : Action) (g : DataPlane S)
      → (pressure_relieved env backend policy now action g).1.store ≡ g.store
  unfolding pressure_relieved
  pressure_relieved-store action g = ground arith

  transition-store :
      (action : Action) (current : Asset) (g : DataPlane S)
      → (transition env backend policy now action current g).1.store ≡ g.store
  unfolding transition
  transition-store action current g = ground arith

  is_deleted : (x : AssetState) → state_eq x deleted ≡ true → x ≡ deleted
  is_deleted deleted h = refl
  is_deleted _ h = cc

  -- a purge on which nothing is to be deleted, or that asks the store to
  purge_payload-deletes :
      (action : Action) (g : DataPlane S)
      → let h = (purge_payload env backend policy now action g).1 in
        (h.store ≡ g.store)
        ⊎ ((a : Asset) × (lookup action.asset.asset_id g.registry.assets ≡ some a)
            × (a.state ≡ deleted)
            × (h.store ≡ (backend.delete (location_of a) g.store).1))
  unfolding purge_payload
  purge_payload-deletes action g =
      elim (Option-cases (lookup action.asset.asset_id g.registry.assets)) [
        | inl missing ↦ inl (ground arith)
        | inr (a, found) ↦ elim (Bool-cases (is_some a.payload_deleted_at)) [
          | inl gone ↦ inl (ground arith)
          | inr there ↦ elim (Bool-cases (state_eq a.state deleted)) [
            | inr live ↦ inl (ground arith)
            | inl fenced ↦ inr (
              a,
              found,
              is_deleted a.state fenced,
              elim (Result-cases (backend.delete (location_of a) g.store).0) [
                | inl (u, cleared) ↦ ground arith
                | inr (e, refused) ↦ ground arith
              ],
            )
          ]
        ]
      ]

  purge_payload-Spares :
      (action : Action) → Spares action.asset.asset_id (purge_payload env backend policy now action)
  purge_payload-Spares action = record {
    at = λ g r. elim (purge_payload-deletes action g) [
      | inl same ↦ inl same
      | inr (a, found, fenced, cleared) ↦
          let runs = (purge_payload-Visits env backend policy now action).at g in
          let (b, there, later) = Runs-IsLater env grace r runs action.asset.asset_id a found in
          inr (
            b,
            there,
            stays_deleted a b later fenced,
            rw (later.identity.space, later.identity.storage_key) cleared,
          )
    ];
  }

  -- An action of a sweep, in a registry that its own operations have built, leaves the stored bytes
  -- alone, or asks the store, once, to delete those at the bucket and the storage key of the asset
  -- that the registry has under the action's identifier, and which it then has deleted, also where the
  -- store or the registry raises on the way.
  pub apply_action-IsSwept :
      (action : Action) (g : DataPlane S)
      → Reachable env grace g.registry
      → IsSwept action.asset.asset_id g.store (apply_action env backend policy now action g).1
  unfolding apply_action
  apply_action-IsSwept action g r =
      (Spares-bind action.asset.asset_id (on_registry (get_asset action.asset.asset_id)) _
          (Visits-get_asset env action.asset.asset_id) (λ h. refl)
          λ current.
            Spares-if_else action.asset.asset_id (not (asset_eq current action.asset)) _ _
              (Spares-pure action.asset.asset_id passed_over)
              (Spares-bind action.asset.asset_id (quota_relieved env backend policy now action) _
                (quota_relieved-Visits env backend policy now action) (quota_relieved-store action)
                λ by_quota.
                  Spares-if_else action.asset.asset_id by_quota _ _
                    (Spares-pure action.asset.asset_id passed_over)
                    (Spares-bind action.asset.asset_id
                      (pressure_relieved env backend policy now action) _
                      (pressure_relieved-Visits env backend policy now action)
                      (pressure_relieved-store action)
                      λ by_pressure.
                        Spares-if_else action.asset.asset_id by_pressure _ _
                          (Spares-pure action.asset.asset_id passed_over)
                          (Spares-bind action.asset.asset_id
                            (transition env backend policy now action current) _
                            (transition-Visits env backend policy now action current)
                            (transition-store action current)
                            λ u.
                              Spares-if_else action.asset.asset_id action.purge _ _
                                (purge_payload-Spares action)
                                (Spares-pure action.asset.asset_id done))))).at
        g r
