-- ===== src/Examples/Swept.antt =====
-- The maintenance worker's theorems at concrete inputs: a reservation that was given up.
use prototype_cache.Prelude.{ℕ, ◌≡◌, refl, true, false, [], ◌∷◌, length}
use prototype_cache.Prelude.Int.{pos}
use prototype_cache.Prelude.Text.{strip, is_space}
use prototype_cache.Prelude.Dict.{lookup, insert, text_key}
use prototype_cache.Prelude.Sort.{Every, sort_by}
use mathlib.Core.List.{Memᴰ}
use prototype_cache.Errors.{ok}
use prototype_cache.Models.{deleted, Ratio}
use prototype_cache.Retention.{expiry_for}
use prototype_cache.Paths.{normalize_space, normalize_partition_id, qualified_alias}
use prototype_cache.Storage.{build_storage_key}
use prototype_cache.ObjectStore.{LocalObjectStore}
use prototype_cache.ObjectStore.Backend.{ObjectStoreBackend, local_backend}
use prototype_cache.Registry.Names.{normalize_alias_specs, alias_under_partition}
use prototype_cache.Registry.Quota.{enforce_quota}
use prototype_cache.Registry.Aliases.{reserve_asset}
use prototype_cache.Registry.Queries.{list_assets}
use prototype_cache.Registry.Calls.{run, Reachable, start, call}
use prototype_cache.DataPlane.{DataPlane}
use prototype_cache.Lifecycle.Policy.{SweepPolicy, Action}
use prototype_cache.Lifecycle.Plan.{
  Plan, empty_plan, plan_sweep, plan_due, due, pressed_partitions, plan_quotas, plan_pressure,
}
use prototype_cache.Lifecycle.Sweep.{SweepReport, done, run_sweep, apply_action}
use prototype_cache.Lifecycle.Justified.{plan_sweep-Justified}
use prototype_cache.Lifecycle.Justified.Causes.{Cause, abandoned}
use prototype_cache.Lifecycle.Reports.{counted, run_sweep-Counts}
use prototype_cache.Lifecycle.Fence.{IsSwept, apply_action-IsSwept}
use prototype_cache.Lifecycle.Reclaim.{IsReclaimed, apply_action-IsReclaimed}
use prototype_cache.Examples.{
  process, reservation, reserved_state, reserved_asset, waiting, no_uses, length_digest, holding,
}

abbrev tenths : ℕ → Ratio
tenths n = record { numerator = pos n; denominator = 10 }

abbrev daily : SweepPolicy
daily = record {
  pending_seconds = 1;
  grace_seconds = ("users", 60) ∷ [];
  capacity_bytes = [];
  pressure_trigger = tenths 9;
  pressure_target = tenths 7;
  quota_trigger = tenths 9;
  quota_target = tenths 7;
}

abbrev store : ObjectStoreBackend LocalObjectStore
store = local_backend length_digest

abbrev plane : DataPlane LocalObjectStore
plane = record { registry = reserved_state; store = holding; ledger = no_uses }

-- two seconds later
abbrev later : ℕ
later = 2001000

abbrev purge_waiting : Action
purge_waiting = record { asset = waiting; state = deleted; reason = "orphan"; purge = true }

abbrev planned : Plan
planned = record empty_plan {
  actions = purge_waiting ∷ [];
  selected = "asset-0" ∷ [];
  purged = "asset-0" ∷ [];
}

plans : plan_sweep process reserved_state daily later ≡ ok planned
unfolding plan_sweep plan_due due pressed_partitions plan_quotas plan_pressure sort_by list_assets
    run reserve_asset lookup strip is_space normalize_space normalize_partition_id
    normalize_alias_specs insert alias_under_partition qualified_alias enforce_quota
    build_storage_key expiry_for
plans = refl

plan_sweep-Justified_example :
    Every
      (λ act. Memᴰ act.asset (list_assets reserved_state) × Cause daily later act)
      planned.actions
plan_sweep-Justified_example = plan_sweep-Justified process reserved_state daily later planned plans

run_sweep-Counts_example :
    (t : SweepReport) × ((run_sweep process store daily false later plane).0 ≡ ok t)
    × (t.candidates ≡ length planned.actions)
    × (t.dry_run ≡ false)
    × (false ≡ false → counted t ≡ t.candidates)
    × (false ≡ true
        → (counted t ≡ 0) × ((run_sweep process store daily false later plane).1 ≡ plane))
run_sweep-Counts_example = run_sweep-Counts process store daily false later plane planned plans

reached_reserved : Reachable process 10 reserved_state
unfolding lookup
reached_reserved = call reservation start refl

apply_action-IsSwept_example :
    IsSwept process store daily later 10 "asset-0" holding
      (apply_action process store daily later purge_waiting plane).1
apply_action-IsSwept_example =
    apply_action-IsSwept process store daily later 10 purge_waiting plane reached_reserved

given_up : Cause daily later purge_waiting
given_up = abandoned waiting refl refl

apply_action-IsReclaimed_example :
    ((apply_action process store daily later purge_waiting plane).0 ≡ ok done)
    × IsReclaimed process store daily later "asset-0"
        (apply_action process store daily later purge_waiting plane).1
apply_action-IsReclaimed_example =
    apply_action-IsReclaimed process store daily later later purge_waiting plane given_up refl refl
      refl reserved_asset refl
