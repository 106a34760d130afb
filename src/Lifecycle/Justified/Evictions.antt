-- ===== src/Lifecycle/Justified/Evictions.antt =====
-- The actions that quotas and budgets call for.
use prototype_cache.Prelude.{
  ℕ, ◌-◌, String, Bool, true, false, not, ◌≡◌, ◌⊎◌, refl, inl, inr, List, [], ◌∷◌, ◌++◌, arith, ltb,
  contains, sum_of, keep, ◌&&◌, ◌||◌, if◌then◌else◌, str_eq, Bool-cases, Option-cases, subst,
  is_some, eq_iff, ap, ◌∙◌,
}
use prototype_cache.Prelude.Dict.{text_key}
use prototype_cache.Prelude.Sort.{Every, Every-append, keep-Every, Every-when, sort_by-Every}
use prototype_cache.Errors.{Result-cases, ok}
use prototype_cache.Models.{
  Asset, AssetState, available, expired, state_eq, inherit, EvictionPolicy, policy_eq, Ratio,
  PartitionQuota,
}
use prototype_cache.Env.{Env}
use prototype_cache.Registry.State.{Registry}
use prototype_cache.Registry.Quota.{partition_quota, physical_size}
use prototype_cache.Lifecycle.Policy.{SweepPolicy, Action}
use prototype_cache.Lifecycle.Plan.{
  Plan, evictable, size_of, evict_from, evict, in_partition, in_space, press_quota, plan_quotas,
  press_space, plan_pressure, pressed_spaces, pressed_partitions, scored_before, mark_exhausted,
  has_pair,
}
use prototype_cache.Lifecycle.Justified.Causes.{Fits, AllFit, evicted}

state_eq_available : (x : AssetState) → state_eq x available ≡ true → x ≡ available
state_eq_available available h = refl
state_eq_available _ h = cc

policy_eq_inherit : (x : EvictionPolicy) → policy_eq x inherit ≡ true → x ≡ inherit
policy_eq_inherit inherit h = refl
policy_eq_inherit _ h = cc

module _ (policy : SweepPolicy) (now : ℕ) (Known : Asset → Type 0) where
  abbrev Evictable : Asset → Type 0
  Evictable a = Known a × (a.state ≡ available) × (contains a.space pressed_spaces ≡ true)

  abbrev Candidate : Asset → Type 0
  Candidate a = Evictable a × (a.eviction_policy ≡ inherit)

  AllFit-if :
      (t : Bool) (x y : Plan)
      → (t ≡ true → AllFit policy now Known x.actions)
      → AllFit policy now Known y.actions
      → AllFit policy now Known (if t then x else y).actions
  AllFit-if true x y h k = h refl
  AllFit-if false x y h k = k

  module _ (env : Env) (reason : String)
      (why : (reason ≡ "quota_lfu") ⊎ (reason ≡ "pressure_lfu")) where
    evicted-Fits :
        (a : Asset)
        → Candidate a
        → Fits policy now Known
            (record { asset = a; state = expired; reason = reason; purge = false })
    evicted-Fits a ((known, live, pressed), free) = (known, evicted a reason live free pressed why)

    evict_from-AllFit :
        (n : ℕ) (target : Ratio) (remaining : ℕ) (assets : List Asset) (p : Plan)
        → Every Candidate assets
        → AllFit policy now Known p.actions
        → AllFit policy now Known (evict_from env n target reason remaining assets p).1.actions
    unfolding evict_from
    evict_from-AllFit n target remaining [] p known fits = fits
    evict_from-AllFit n target remaining (a ∷ rest) p known fits =
        elim (Bool-cases (env.within remaining n target)) [
          | inl stop ↦ rw (stop, evict_from) fits
          | inr more ↦
              let act : Action = record {
                asset = a;
                state = expired;
                reason = reason;
                purge = false;
              } in
              rw (more, evict_from)
                (evict_from-AllFit n target (remaining - size_of a) rest
                  (record p {
                    actions = p.actions ++ (act ∷ []);
                    selected = a.asset_id ∷ p.selected;
                  })
                  known.1
                  (Every-append (Fits policy now Known) p.actions (act ∷ []) fits
                    (evicted-Fits a known.0, tt)))
        ]

    mark_exhausted-AllFit :
        (n : ℕ) (target : Ratio) (space : String) (r : ℕ × Plan)
        → AllFit policy now Known r.1.actions
        → AllFit policy now Known (mark_exhausted env n target space r).actions
    mark_exhausted-AllFit n target space (remaining, p) fits =
        AllFit-if (env.within remaining n target || contains space p.exhausted) p
          (record p { exhausted = space ∷ p.exhausted }) (λ e. fits) fits

    evict-AllFit :
        (group : List Asset) (n : ℕ) (target : Ratio) (space : String) (p : Plan)
        → Every (λ a. Known a × (contains a.space pressed_spaces ≡ true)) group
        → AllFit policy now Known p.actions
        → AllFit policy now Known (evict env now group n target reason space p).actions
    unfolding evict evictable
    evict-AllFit group n target space p known fits =
        let able : Every Evictable (evictable p group) =
          keep-Every (λ a. state_eq a.state available && not (contains a.asset_id p.selected))
            (λ a passed k. (k.0, state_eq_available a.state (ground arith), k.1)) group known in
        let inherits : Every Candidate
            (keep (λ a. policy_eq a.eviction_policy inherit) (evictable p group)) =
          keep-Every (λ a. policy_eq a.eviction_policy inherit)
            (λ a passed k. (k, policy_eq_inherit a.eviction_policy passed)) (evictable p group)
            able in
        mark_exhausted-AllFit n target space _ (
          evict_from-AllFit n target _ _ p
            (sort_by-Every Candidate (scored_before env now) _ inherits) fits)

  -- the assets of a group whose bucket is under pressure
  in_pressed :
      (space : String) (t : Asset → Bool) (assets : List Asset)
      → contains space pressed_spaces ≡ true
      → ((a : Asset) → t a ≡ true → a.space ≡ space)
      → Every Known assets
      → Every (λ a. Known a × (contains a.space pressed_spaces ≡ true)) (keep t assets)
  in_pressed space t assets pressed named known =
      keep-Every t
        (λ a passed k. (k, ap (λ x. contains x pressed_spaces) (named a passed) ∙ pressed)) assets
        known

  module _ (env : Env) where
    press_quota-AllFit :
        (group : List Asset) (quota : PartitionQuota) (space : String) (p : Plan)
        → Every (λ a. Known a × (contains a.space pressed_spaces ≡ true)) group
        → AllFit policy now Known p.actions
        → AllFit policy now Known (press_quota env policy now group quota space p).actions
    unfolding press_quota
    press_quota-AllFit group quota space p known fits = elim (Option-cases quota.quota_bytes) [
      | inl unlimited ↦ rw (unlimited, press_quota) fits
      | inr (n, limited) ↦
          rw (limited, press_quota)
            (AllFit-if
              (quota.eviction_sweep_enabled
                && ltb 0 (sum_of size_of (evictable p group))
                && env.reaches (sum_of size_of (evictable p group)) n policy.quota_trigger)
              _ p
              (λ e.
                evict-AllFit env "quota_lfu" (inl refl) group n policy.quota_target space p known
                  fits)
              fits)
    ]

    press_space-AllFit :
        (assets : List Asset) (space : String) (capacity : ℕ) (p : Plan)
        → Every Known assets
        → AllFit policy now Known p.actions
        → AllFit policy now Known
            (press_space env policy now (in_space space assets) space capacity p).actions
    unfolding press_space
    press_space-AllFit assets space capacity p known fits =
        let group = in_space space assets in
        let physical =
          sum_of physical_size (keep (λ a. not (is_some a.payload_deleted_at)) group) in
        let projected =
          sum_of physical_size (keep (λ a. not (contains a.asset_id p.purged)) group) in
        let measured = record p { ratios = p.ratios ++ ((space, physical, capacity) ∷ []) } in
        AllFit-if
          (contains space pressed_spaces && env.reaches projected capacity policy.pressure_trigger)
          (evict env now group capacity policy.pressure_target "pressure_lfu" space measured)
          measured
          (λ e.
            evict-AllFit env "pressure_lfu" (inr refl) group capacity policy.pressure_target space
              measured
              (in_pressed space (λ a. str_eq a.space space) assets (ground (arith, e))
                (λ a passed. ground (arith, eq_iff a.space space)) known)
              fits)
          fits

    abbrev pub IsPressed : String × String → Type 0
    IsPressed k = contains k.0 pressed_spaces ≡ true

    pub pressed_partitions-IsPressed :
        (assets : List Asset) → Every IsPressed (pressed_partitions assets)
    unfolding pressed_partitions
    pressed_partitions-IsPressed [] = tt
    pressed_partitions-IsPressed (a ∷ rest) =
        Every-when IsPressed
          (contains a.space pressed_spaces
            && not (has_pair (a.space, a.partition_id) (pressed_partitions rest)))
          (a.space, a.partition_id) (pressed_partitions rest) (λ e. ground arith)
          (pressed_partitions-IsPressed rest)

    pub plan_quotas-AllFit :
        (s : Registry) (assets : List Asset) (keys : List (String × String)) (p q : Plan)
        → Every Known assets
        → Every IsPressed keys
        → AllFit policy now Known p.actions
        → plan_quotas env policy now s assets keys p ≡ ok q
        → AllFit policy now Known q.actions
    unfolding plan_quotas
    plan_quotas-AllFit s assets [] p q known pressed fits h =
        let same : p ≡ q = cc in subst (λ x. AllFit policy now Known x.actions) same fits
    plan_quotas-AllFit s assets ((space, partition) ∷ rest) p q known pressed fits h =
        elim (Result-cases (partition_quota s space partition)) [
          | inr (e, raised) ↦ absurd (ground arith)
          | inl (quota, found) ↦
              plan_quotas-AllFit s assets rest _ q known pressed.1
                (press_quota-AllFit (in_partition (space, partition) assets) quota space p
                  (in_pressed space (λ a. str_eq a.space space && str_eq a.partition_id partition)
                    assets pressed.0 (λ a passed. ground (arith, eq_iff a.space space)) known)
                  fits)
                (rw found at h)
        ]

    pub plan_pressure-AllFit :
        (assets : List Asset) (budgets : List (String × ℕ)) (p : Plan)
        → Every Known assets
        → AllFit policy now Known p.actions
        → AllFit policy now Known (plan_pressure env policy now assets budgets p).actions
    unfolding plan_pressure
    plan_pressure-AllFit assets [] p known fits = fits
    plan_pressure-AllFit assets ((space, capacity) ∷ rest) p known fits =
        plan_pressure-AllFit assets rest _ known
          (press_space-AllFit assets space capacity p known fits)
