-- ===== src/Lifecycle/Reports.antt =====
-- What a sweep reports.
use prototype_cache.Prelude.{
  ℕ, ◌+◌, Bool, true, false, ◌≡◌, refl, ◌∙◌, List, [], ◌∷◌, arith, inl, inr, length,
}
use prototype_cache.Errors.{Result, Result-cases, ok}
use prototype_cache.Env.{Env}
use prototype_cache.ObjectStore.Backend.{ObjectStoreBackend}
use prototype_cache.DataPlane.{DataPlane}
use prototype_cache.Lifecycle.Policy.{SweepPolicy, Action}
use prototype_cache.Lifecycle.Plan.{Plan, plan_sweep}
use prototype_cache.Lifecycle.Sweep.{
  SweepReport, Verdict, done, passed_over, failed, apply_action, attempt, count, apply_all,
  first_report, run_sweep,
}

-- The actions that a report has counted.
abbrev pub counted : SweepReport → ℕ
counted r = r.applied + r.skipped + r.errors

module _ (env : Env) {S : Type 0} (backend : ObjectStoreBackend S) (policy : SweepPolicy)
    (now : ℕ) where
  attempt-ok :
      (action : Action) (g : DataPlane S)
      → (v : Verdict) × ((attempt env backend policy now action g).0 ≡ ok v)
  unfolding attempt
  attempt-ok action g = elim (Result-cases (apply_action env backend policy now action g).0) [
    | inl (v, returned) ↦ (v, ground arith)
    | inr (e, raised) ↦ (failed, ground arith)
  ]

  count-counted :
      (v : Verdict) (r : SweepReport)
      → (counted (count env backend policy now v r) ≡ counted r + 1)
        × ((count env backend policy now v r).candidates ≡ r.candidates)
        × ((count env backend policy now v r).dry_run ≡ r.dry_run)
  count-counted done r = (omega arith, refl, refl)
  count-counted passed_over r = (omega arith, refl, refl)
  count-counted failed r = (omega arith, refl, refl)

  -- A loop that returns a report of every action.
  abbrev Counts : ℕ → SweepReport → Result SweepReport → Type 0
  Counts n r out =
      (t : SweepReport) × (out ≡ ok t)
      × (counted t ≡ counted r + n)
      × (t.candidates ≡ r.candidates)
      × (t.dry_run ≡ r.dry_run)

  apply_all-Counts :
      (actions : List Action) (r : SweepReport) (g : DataPlane S)
      → Counts (length actions) r (apply_all env backend policy now actions r g).0
  unfolding apply_all
  apply_all-Counts [] r g = (r, refl, omega arith, refl, refl)
  apply_all-Counts (action ∷ rest) r g =
      let (v, returned) = attempt-ok action g in
      let (t, e, sum, same, mode) =
        apply_all-Counts rest (count env backend policy now v r)
          (attempt env backend policy now action g).1 in
      let (one, same', mode') = count-counted v r in
      (t, ground (arith, returned, e), omega arith, same ∙ same', mode ∙ mode')

-- A sweep that can plan returns a report, whatever the object store and the registry raise on the
-- way. A dry run changes nothing, and counts the planned actions as candidates only. A sweep that
-- is no dry run counts each of its candidates once: as applied, as skipped or as an error.
pub run_sweep-Counts :
    (env : Env) {S : Type 0} (backend : ObjectStoreBackend S) (policy : SweepPolicy)
    (dry_run : Bool) (now : ℕ) (g : DataPlane S) (plan : Plan)
    → plan_sweep env g.registry policy now ≡ ok plan
    → (t : SweepReport) × ((run_sweep env backend policy dry_run now g).0 ≡ ok t)
      × (t.candidates ≡ length plan.actions)
      × (t.dry_run ≡ dry_run)
      × (dry_run ≡ false → counted t ≡ t.candidates)
      × (dry_run ≡ true → (counted t ≡ 0) × ((run_sweep env backend policy dry_run now g).1 ≡ g))
unfolding run_sweep
run_sweep-Counts env backend policy true now g plan planned = (
  first_report true plan,
  ground (arith, planned),
  refl,
  refl,
  λ no. cc,
  λ yes. (refl, ground (arith, planned)),
)
run_sweep-Counts env backend policy false now g plan planned =
    let (t, e, sum, same, mode) =
      apply_all-Counts env backend policy now plan.actions (first_report false plan) g in
    (t, ground (arith, planned, e), same, mode, λ no. omega arith, λ yes. cc)
