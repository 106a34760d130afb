-- ===== src/Lifecycle/Sweep.antt =====
-- `run_sweep`: the planned actions, each checked again under the asset's lock and applied.
use prototype_cache.Prelude.{
  ℕ, ◌+◌, String, Bool, true, false, not, ◌||◌, Option, none, some, List, [], ◌∷◌, is_some, length,
  str_eq,
}
use prototype_cache.Prelude.Dict.{lookup, text_key}
use prototype_cache.Prelude.Sort.{sort_by, text_before}
use prototype_cache.Errors.{key_error, runtime_error}
use prototype_cache.Exec.{Exec, pure, or_fail, raise_when, if_else, catch, ◌>>=◌, ◌>>◌}
use prototype_cache.Models.{Asset, deleted, state_eq, asset_eq, Ratio}
use prototype_cache.Env.{Env}
use prototype_cache.Storage.{ObjectStoreLocation}
use prototype_cache.ObjectStore.Backend.{ObjectStoreBackend}
use prototype_cache.Registry.State.{get_asset}
use prototype_cache.Registry.Quota.{partition_quota, bucket_quota}
use prototype_cache.Registry.Lifecycle.{lifecycle_update}
use prototype_cache.DataPlane.{DataPlane, on_registry, on_store}
use prototype_cache.Lifecycle.Policy.{SweepPolicy, Action}
use prototype_cache.Lifecycle.Plan.{Plan, plan_sweep}

pub record SweepReport : Type 0 where
  pub dry_run : Bool
  pub candidates : ℕ
  pub applied : ℕ
  pub skipped : ℕ
  pub errors : ℕ
  pub exhausted : List String

-- What becomes of one action.
pub data Verdict : Type 0 where
  done passed_over failed : Verdict

abbrev pub location_of : Asset → ObjectStoreLocation
location_of a = record { bucket = a.space; key = a.storage_key }

-- `quota.quota_bytes is None or quota.used_bytes <= quota.quota_bytes * target`
abbrev pub below_target : Env → ℕ → Option ℕ → Ratio → Bool
below_target env used none target = true
below_target env used (some n) target = env.within used n target

module _ (env : Env) {S : Type 0} (backend : ObjectStoreBackend S) (policy : SweepPolicy)
    (now : ℕ) where
  -- whether the quota no longer calls for the action
  unfoldable pub quota_relieved : Action → Exec (DataPlane S) Bool
  quota_relieved action =
      if_else (str_eq action.reason "quota_lfu")
        (do
          quota ← λ g. (partition_quota g.registry action.asset.space action.asset.partition_id, g)
          pure (
              not quota.eviction_sweep_enabled
              || below_target env quota.used_bytes quota.quota_bytes policy.quota_target))
        (pure false)

  -- whether the bucket's budget no longer calls for the action
  unfoldable pub pressure_relieved : Action → Exec (DataPlane S) Bool
  pressure_relieved action =
      if_else (str_eq action.reason "pressure_lfu")
        (do
          quota ← λ g. (bucket_quota g.registry action.asset.space, g)
          capacity ← or_fail (lookup action.asset.space policy.capacity_bytes) key_error
          pure (env.within quota.used_bytes capacity policy.pressure_target))
        (pure false)

  -- the second `with` block: the bytes, and then the record that they are gone
  unfoldable pub purge_payload : Action → Exec (DataPlane S) Verdict
  purge_payload action = do
    fenced ← on_registry (get_asset action.asset.asset_id)
    if_else (is_some fenced.payload_deleted_at) (pure passed_over) (do
      raise_when (not (state_eq fenced.state deleted)) runtime_error
      on_store (backend.delete (location_of fenced))
      updated ← on_registry (lifecycle_update env fenced deleted now action.reason true)
      pure done)

  -- the change of the state, where one is due
  unfoldable pub transition : Action → Asset → Exec (DataPlane S) (Unit {0})
  transition action current =
      if_else (not action.purge || not (state_eq current.state deleted))
        (do
          updated ← on_registry (lifecycle_update env current action.state now action.reason false)
          pure tt)
        (pure tt)

  -- the body of the loop's `try`
  unfoldable pub apply_action : Action → Exec (DataPlane S) Verdict
  unfolding quota_relieved pressure_relieved purge_payload transition
  apply_action action = do
    current ← on_registry (get_asset action.asset.asset_id)
    if_else (not (asset_eq current action.asset)) (pure passed_over) (do
      by_quota ← quota_relieved action
      if_else by_quota (pure passed_over) (do
        by_pressure ← pressure_relieved action
        if_else by_pressure (pure passed_over) (do
          transition action current
          if_else action.purge (purge_payload action) (pure done))))

  unfoldable pub attempt : Action → Exec (DataPlane S) Verdict
  unfolding apply_action
  attempt action = catch (apply_action action) (λ e. pure failed)

  abbrev pub count : Verdict → SweepReport → SweepReport
  count done r = record r { applied = r.applied + 1 }
  count passed_over r = record r { skipped = r.skipped + 1 }
  count failed r = record r { errors = r.errors + 1 }

  -- the loop over the actions
  unfoldable pub apply_all : List Action → SweepReport → Exec (DataPlane S) SweepReport
  unfolding attempt
  apply_all [] report = pure report
  apply_all (action ∷ rest) report = do
    verdict ← attempt action
    apply_all rest (count verdict report)

abbrev pub first_report : Bool → Plan → SweepReport
first_report dry_run plan = record {
  dry_run = dry_run;
  candidates = length plan.actions;
  applied = 0;
  skipped = 0;
  errors = 0;
  exhausted = sort_by text_before plan.exhausted;
}

unfoldable pub run_sweep :
    Env
    → {S : Type 0} → ObjectStoreBackend S
    → SweepPolicy
    → Bool
    → ℕ
    → Exec (DataPlane S) SweepReport
unfolding plan_sweep apply_all
run_sweep env backend policy dry_run now = do
  plan ← λ g. (plan_sweep env g.registry policy now, g)
  if_else dry_run (pure (first_report dry_run plan))
      (apply_all env backend policy now plan.actions (first_report dry_run plan))
