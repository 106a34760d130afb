-- ===== src/Lifecycle/Justified.antt =====
-- Why a sweep may touch an asset.
pub mod Causes
pub mod Evictions
use prototype_cache.Prelude.{
  ℕ, ◌+◌, ◌*◌, ◌-◌, String, Bool, true, false, not, ◌≡◌, ◌⊎◌, refl, sym, inl, inr, Option, none,
  some, List, [], ◌∷◌, ◌++◌, arith, leb, ltb, get_or, contains, sum_of, keep, ◌&&◌, if◌then◌else◌,
  str_eq, Bool-cases, Option-cases, subst, is_some, eq_iff, ap, ◌∙◌,
}
use mathlib.Core.List.{Memᴰ}
use prototype_cache.Prelude.Dict.{lookup, text_key}
use prototype_cache.Prelude.Sort.{
  sort_by, text_before, pair_before, Every, Every-append, Every-map, Every-Mem, keep-Every,
  Every-when, sort_by-Every,
}
use prototype_cache.Errors.{Result, Result-cases, ok, err, >>=-ok}
use prototype_cache.Models.{
  Asset, AssetState, pending, available, expired, deleted, state_eq, inherit, EvictionPolicy,
  policy_eq, Ratio, PartitionQuota,
}
use prototype_cache.Env.{Env}
use prototype_cache.Retention.{second, is_past}
use prototype_cache.Registry.State.{Registry}
use prototype_cache.Registry.Quota.{partition_quota, physical_size}
use prototype_cache.Registry.Queries.{list_assets}
use prototype_cache.Lifecycle.Policy.{SweepPolicy, Action}
use prototype_cache.Lifecycle.Plan.{
  Plan, empty_plan, due, plan_due, evictable, size_of, evict_from, evict, in_partition, in_space,
  press_quota, plan_quotas, press_space, plan_pressure, plan_sweep, pressed_spaces,
  pressed_partitions, add_action, scored_before, mark_exhausted, has_pair,
}
use prototype_cache.Lifecycle.Justified.Causes.{Cause, Fits, AllFit, plan_due-AllFit, evicted}
use prototype_cache.Lifecycle.Justified.Evictions.{
  IsPressed, pressed_partitions-IsPressed, plan_quotas-AllFit, plan_pressure-AllFit,
}

-- Every action that a sweep plans is for an asset of the registry and has its reason in the state
-- of that asset: a reservation given up, a deadline passed, a grace period over, bytes that a
-- deletion left, or the eviction of an available asset of `cache` or `tmp` whose owner allows it.
pub plan_sweep-Justified :
    (env : Env) (s : Registry) (policy : SweepPolicy) (now : ℕ) (p : Plan)
    → plan_sweep env s policy now ≡ ok p
    → Every (λ act. Memᴰ act.asset (list_assets s) × Cause policy now act) p.actions
unfolding plan_sweep
plan_sweep-Justified env s policy now p h =
    let assets = list_assets s in
    let known = Every-Mem assets in
    let Known : Asset → Type 0 = λ a. Memᴰ a assets in
    let (first, e1, h1) =
      >>=-ok
        (plan_due policy now (sort_by (λ a b. text_before a.asset_id b.asset_id) assets) empty_plan)
        _ h in
    let (second, e2, h2) =
      >>=-ok
        (plan_quotas env policy now s assets (sort_by pair_before (pressed_partitions assets))
          first)
        _ h1 in
    let fits1 =
      plan_due-AllFit policy now Known _ empty_plan first (sort_by-Every Known _ assets known) tt
        e1 in
    let fits2 =
      plan_quotas-AllFit policy now Known env s assets _ first second known
        (sort_by-Every (IsPressed policy now Known env) pair_before _
          (pressed_partitions-IsPressed policy now Known env assets))
        fits1 e2 in
    let last =
      plan_pressure env policy now assets
        (sort_by (λ a b. text_before a.0 b.0) policy.capacity_bytes) second in
    let same : last ≡ p = cc in
    subst (λ x. Every (λ act. Memᴰ act.asset (list_assets s) × Cause policy now act) x.actions) same
      (plan_pressure-AllFit policy now Known env assets
        (sort_by (λ a b. text_before a.0 b.0) policy.capacity_bytes) second known fits2)
