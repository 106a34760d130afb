-- ===== src/Lifecycle/Effects.antt =====
-- What a sweep does to the registry, and what it reports.
use prototype_cache.Prelude.{ℕ, true, false, not, arith, is_some, ◌||◌}
use prototype_cache.Prelude.Dict.{text_key}
use prototype_cache.Errors.{runtime_error}
use prototype_cache.Exec.{raise_when}
use prototype_cache.Models.{Asset, deleted, state_eq, asset_eq}
use prototype_cache.Env.{Env}
use prototype_cache.ObjectStore.Backend.{ObjectStoreBackend}
use prototype_cache.Registry.State.{get_asset}
use prototype_cache.DataPlane.{on_registry, on_store}
use prototype_cache.DataPlane.Visits.{
  Visits, Visits-bind, Visits-pure, Visits-on_store, Visits-aside, Visits-raise_when,
  Visits-if_else, Visits-get_asset, Visits-lifecycle_update,
}
use prototype_cache.Lifecycle.Policy.{SweepPolicy, Action}
use prototype_cache.Lifecycle.Sweep.{
  done, passed_over, location_of, quota_relieved, pressure_relieved, purge_payload, transition,
  apply_action,
}

module _ (env : Env) {S : Type 0} (backend : ObjectStoreBackend S) (policy : SweepPolicy)
    (now : ℕ) where
  pub quota_relieved-Visits :
      (action : Action) → Visits env (quota_relieved env backend policy now action)
  unfolding quota_relieved
  quota_relieved-Visits action =
      Visits-aside env (quota_relieved env backend policy now action) (λ g. ground arith)

  pub pressure_relieved-Visits :
      (action : Action) → Visits env (pressure_relieved env backend policy now action)
  unfolding pressure_relieved
  pressure_relieved-Visits action =
      Visits-aside env (pressure_relieved env backend policy now action) (λ g. ground arith)

  pub purge_payload-Visits :
      (action : Action) → Visits env (purge_payload env backend policy now action)
  unfolding purge_payload
  purge_payload-Visits action =
      Visits-bind env (on_registry (get_asset action.asset.asset_id)) _
        (Visits-get_asset env action.asset.asset_id)
        λ fenced.
          Visits-if_else env (is_some fenced.payload_deleted_at) _ _ (Visits-pure env passed_over) (
            Visits-bind env (raise_when (not (state_eq fenced.state deleted)) runtime_error) _
              (Visits-raise_when env _ _)
              λ u.
                Visits-bind env (on_store (backend.delete (location_of fenced))) _
                  (Visits-on_store env _)
                  λ v.
                    Visits-bind env (on_registry _) _
                      (Visits-lifecycle_update env fenced deleted now action.reason true)
                      λ updated. Visits-pure env done)

  pub transition-Visits :
      (action : Action) (current : Asset)
      → Visits env (transition env backend policy now action current)
  unfolding transition
  transition-Visits action current =
      Visits-if_else env (not action.purge || not (state_eq current.state deleted)) _ _
        (Visits-bind env (on_registry _) _
          (Visits-lifecycle_update env current action.state now action.reason false)
          λ updated. Visits-pure env tt)
        (Visits-pure env tt)

  apply_action-Visits : (action : Action) → Visits env (apply_action env backend policy now action)
  unfolding apply_action
  apply_action-Visits action =
      Visits-bind env (on_registry (get_asset action.asset.asset_id)) _
        (Visits-get_asset env action.asset.asset_id)
        λ current.
          Visits-if_else env (not (asset_eq current action.asset)) _ _ (Visits-pure env passed_over)
            (Visits-bind env (quota_relieved env backend policy now action) _
              (quota_relieved-Visits action)
              λ by_quota. Visits-if_else env by_quota _ _ (Visits-pure env passed_over) (
                Visits-bind env (pressure_relieved env backend policy now action) _
                  (pressure_relieved-Visits action)
                  λ by_pressure. Visits-if_else env by_pressure _ _ (Visits-pure env passed_over) (
                    Visits-bind env (transition env backend policy now action current) _
                      (transition-Visits action current)
                      λ u.
                        Visits-if_else env action.purge _ _ (purge_payload-Visits action)
                          (Visits-pure env done))))
