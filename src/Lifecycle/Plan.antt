-- ===== src/Lifecycle/Plan.antt =====
-- `plan_sweep`: which assets are to be expired, deleted and purged. Ages are compared in
-- microseconds, as the division of `total_seconds` is exact enough below a century.
use prototype_cache.Prelude.{
  ℕ, ◌+◌, ◌*◌, ◌-◌, String, Bool, true, false, not, ◌&&◌, ◌||◌, Option, none, some, List, [], ◌∷◌,
  ◌++◌, ltb, leb, is_some, get_or, str_eq, contains, keep, sum_of, if◌then◌else◌,
}
use prototype_cache.Prelude.Dict.{lookup, text_key, pair_eq}
use prototype_cache.Prelude.Sort.{sort_by, text_before, pair_before}
use prototype_cache.Errors.{Result, ok, key_error, or_raise, ◌>>=◌}
use prototype_cache.Models.{
  Asset, pending, available, expired, deleted, state_eq, inherit, policy_eq, Ratio, PartitionQuota,
}
use prototype_cache.Env.{Env}
use prototype_cache.Retention.{second, is_past}
use prototype_cache.Registry.State.{Registry}
use prototype_cache.Registry.Quota.{partition_quota, physical_size}
use prototype_cache.Registry.Queries.{list_assets}
use prototype_cache.Lifecycle.Policy.{SweepPolicy, Action}

-- The variables of `plan_sweep`. `ratios` has the two numbers that are divided.
pub record Plan : Type 0 where
  pub actions : List Action
  pub selected : List String
  pub purged : List String
  pub exhausted : List String
  pub ratios : List (String × ℕ × ℕ)

abbrev pub empty_plan : Plan
empty_plan = record { actions = []; selected = []; purged = []; exhausted = []; ratios = [] }

-- the action that the age of an asset calls for
unfoldable pub due : SweepPolicy → ℕ → Asset → Result (Option Action)
due policy now asset = elim asset.state [
  | pending ↦ ok (
      if leb (asset.created_at + policy.pending_seconds * second) now
      then some (record { asset = asset; state = deleted; reason = "orphan"; purge = true })
      else none)
  | available ↦ ok (
      if is_past asset.expires_at now
      then some (record { asset = asset; state = expired; reason = "ttl_expired"; purge = false })
      else none)
  | expired ↦ do
    grace ← or_raise (lookup asset.space policy.grace_seconds) key_error
    ok (
        if leb (get_or asset.expired_at asset.updated_at + grace * second) now
        then some (record { asset = asset; state = deleted; reason = "ttl_expired"; purge = true })
        else none)
  | deleted ↦ ok (
      if not (is_some asset.payload_deleted_at)
      then some (record { asset = asset; state = deleted; reason = "orphan"; purge = true })
      else none)
]

abbrev pub add_action : Option Action → Plan → Plan
add_action none p = p
add_action (some action) p = record p {
  actions = p.actions ++ (action ∷ []);
  selected = action.asset.asset_id ∷ p.selected;
  purged = if action.purge then action.asset.asset_id ∷ p.purged else p.purged;
}

-- the first loop
unfoldable pub plan_due : SweepPolicy → ℕ → List Asset → Plan → Result Plan
plan_due policy now [] p = ok p
plan_due policy now (asset ∷ rest) p = do
  action ← due policy now asset
  plan_due policy now rest (add_action action p)

abbrev pub size_of : Asset → ℕ
size_of a = get_or a.size_bytes 0

-- the local function `available`
unfoldable pub evictable : Plan → List Asset → List Asset
evictable p group =
    keep (λ a. state_eq a.state available && not (contains a.asset_id p.selected)) group

-- `_score`: the age in microseconds, and the size
abbrev pub score : ℕ → Asset → ℕ × ℕ
score now a = (now - get_or a.last_read_at a.created_at, size_of a)

-- `_score(b) < _score(a)`, for the order that is reversed
abbrev pub scored_before : Env → ℕ → Asset → Asset → Bool
scored_before env now a b =
    env.scores_less (score now b) (score now a)
    || not (env.scores_less (score now a) (score now b)) && text_before b.asset_id a.asset_id

-- the loop of `evict`, which ends when `remaining` is at most `n * target`
unfoldable pub evict_from : Env → ℕ → Ratio → String → ℕ → List Asset → Plan → ℕ × Plan
evict_from env n target reason remaining [] p = (remaining, p)
evict_from env n target reason remaining (asset ∷ rest) p = elim (env.within remaining n target) [
  | true ↦ (remaining, p)
  | false ↦ evict_from env n target reason (remaining - size_of asset) rest (record p {
    actions =
        p.actions
        ++ (record { asset = asset; state = expired; reason = reason; purge = false } ∷ []);
    selected = asset.asset_id ∷ p.selected;
  })
]

abbrev pub mark_exhausted : Env → ℕ → Ratio → String → ℕ × Plan → Plan
mark_exhausted env n target space (remaining, p) =
    if env.within remaining n target || contains space p.exhausted
    then p
    else record p { exhausted = space ∷ p.exhausted }

-- `evict`
unfoldable pub evict : Env → ℕ → List Asset → ℕ → Ratio → String → String → Plan → Plan
unfolding evictable evict_from
evict env now group n target reason space p =
    let candidates =
      sort_by (scored_before env now)
        (keep (λ a. policy_eq a.eviction_policy inherit) (evictable p group)) in
    mark_exhausted env n target space
      (evict_from env n target reason (sum_of size_of (evictable p group)) candidates p)

-- `{"cache", "tmp"}`
abbrev pub pressed_spaces : List String
pressed_spaces = "cache" ∷ "tmp" ∷ []

abbrev pub has_pair : String × String → List (String × String) → Bool
has_pair k [] = false
has_pair k (j ∷ rest) = pair_eq j k || has_pair k rest

-- the keys of `by_partition` whose bucket is `cache` or `tmp`
unfoldable pub pressed_partitions : List Asset → List (String × String)
pressed_partitions [] = []
pressed_partitions (a ∷ rest) =
    let others = pressed_partitions rest in
    if contains a.space pressed_spaces && not (has_pair (a.space, a.partition_id) others)
    then (a.space, a.partition_id) ∷ others
    else others

-- `by_partition[key]` and `by_space[space]`
abbrev pub in_partition : String × String → List Asset → List Asset
in_partition (space, partition) assets =
    keep (λ a. str_eq a.space space && str_eq a.partition_id partition) assets

abbrev pub in_space : String → List Asset → List Asset
in_space space assets = keep (λ a. str_eq a.space space) assets

-- what one partition's quota calls for
unfoldable pub press_quota :
    Env → SweepPolicy → ℕ → List Asset → PartitionQuota → String → Plan → Plan
unfolding evictable evict
press_quota env policy now group quota space p = elim quota.quota_bytes [
  | none ↦ p
  | some quota_bytes ↦
      let used = sum_of size_of (evictable p group) in
      if quota.eviction_sweep_enabled
        && ltb 0 used
        && env.reaches used quota_bytes policy.quota_trigger
      then evict env now group quota_bytes policy.quota_target "quota_lfu" space p
      else p
]

-- the loop over the partitions
unfoldable pub plan_quotas :
    Env → SweepPolicy → ℕ → Registry → List Asset → List (String × String) → Plan → Result Plan
plan_quotas env policy now s assets [] p = ok p
plan_quotas env policy now s assets ((space, partition) ∷ rest) p = do
  quota ← partition_quota s space partition
  plan_quotas env policy now s assets rest
      (press_quota env policy now (in_partition (space, partition) assets) quota space p)

-- what the capacity of one bucket calls for
unfoldable pub press_space : Env → SweepPolicy → ℕ → List Asset → String → ℕ → Plan → Plan
unfolding evict
press_space env policy now group space capacity p =
    let physical = sum_of physical_size (keep (λ a. not (is_some a.payload_deleted_at)) group) in
    let projected = sum_of physical_size (keep (λ a. not (contains a.asset_id p.purged)) group) in
    let measured = record p { ratios = p.ratios ++ ((space, physical, capacity) ∷ []) } in
    if contains space pressed_spaces && env.reaches projected capacity policy.pressure_trigger
    then evict env now group capacity policy.pressure_target "pressure_lfu" space measured
    else measured

-- the loop over the budgets
unfoldable pub plan_pressure : Env → SweepPolicy → ℕ → List Asset → List (String × ℕ) → Plan → Plan
plan_pressure env policy now assets [] p = p
plan_pressure env policy now assets ((space, capacity) ∷ rest) p =
    plan_pressure env policy now assets rest
      (press_space env policy now (in_space space assets) space capacity p)

unfoldable pub plan_sweep : Env → Registry → SweepPolicy → ℕ → Result Plan
unfolding plan_due pressed_partitions plan_quotas plan_pressure
plan_sweep env s policy now = do
  let assets = list_assets s
  first ← plan_due policy now (sort_by (λ a b. text_before a.asset_id b.asset_id) assets) empty_plan
  second ←
      plan_quotas env policy now s assets (sort_by pair_before (pressed_partitions assets)) first
  ok (
      plan_pressure env policy now assets
        (sort_by (λ a b. text_before a.0 b.0) policy.capacity_bytes) second)
