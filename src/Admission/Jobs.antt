-- ===== src/Admission/Jobs.antt =====
-- Jobs that begin and end their leases in any order.
use prototype_cache.Prelude.{
  ℕ, ◌≤◌, String, ◌≡◌, refl, List, [], ◌∷◌, ◌++◌, length, length-append, ◌<◌, ◌↔◌, arith,
}
use prototype_cache.Errors.{ok, err, work_capacity}
use prototype_cache.Prelude.Int.{ℤ}
use prototype_cache.Admission.{WorkAdmission, new_gate, begin_lease, end_lease}

-- A gate with the jobs that it has admitted and that have not ended: a job is admitted if the
-- beginning of its lease returns, is turned away if it raises, and ends its lease once, with or
-- without an error.
pub data Step : WorkAdmission × List String → WorkAdmission × List String → Type 0 where
  admit :
      (job : String) {g : WorkAdmission} {jobs : List String}
      → (begin_lease g).0 ≡ ok tt
      → Step (g, jobs) ((begin_lease g).1, job ∷ jobs)
  turn_away :
      {g : WorkAdmission} {jobs : List String}
      → (begin_lease g).0 ≡ err work_capacity
      → Step (g, jobs) ((begin_lease g).1, jobs)
  finish :
      (before : List String) (job : String) (after : List String) {g : WorkAdmission}
      → Step (g, before ++ (job ∷ after)) ((end_lease g).1, before ++ after)

pub data Reachable (g₀ : WorkAdmission) : WorkAdmission × List String → Type 0 where
  start : Reachable g₀ (g₀, [])
  step : {x y : WorkAdmission × List String} → Reachable g₀ x → Step x y → Reachable g₀ y

abbrev Counts : ℕ → WorkAdmission × List String → Type 0
Counts limit (g, jobs) = (g.limit ≡ limit) × (g.active ≡ length jobs) × (g.active ≤ limit)

Step-Counts :
    (limit : ℕ) {x y : WorkAdmission × List String} → Step x y → Counts limit x → Counts limit y
unfolding begin_lease end_lease
Step-Counts limit (admit job {g} {jobs} h) c = (ground arith, ground arith, ground arith)
Step-Counts limit (turn_away {g} {jobs} h) c = (ground arith, ground arith, ground arith)
Step-Counts limit (finish before job after {g}) c = (
  c.0,
  omega (arith, length-append before (job ∷ after), length-append before after),
  omega arith,
)

Reachable-Counts :
    (limit : ℕ) {g₀ : WorkAdmission}
    → Counts limit (g₀, [])
    → {x : WorkAdmission × List String} → Reachable g₀ x
    → Counts limit x
Reachable-Counts limit c start = c
Reachable-Counts limit c (step r st) = Step-Counts limit st (Reachable-Counts limit c r)

new_gate-Counts : (limit : ℤ) {g : WorkAdmission} → new_gate limit ≡ ok g → Counts g.limit (g, [])
unfolding new_gate
new_gate-Counts limit h = (refl, ground arith, ground arith)

begin_lease_iff : (g : WorkAdmission) → ((begin_lease g).0 ≡ ok tt) ↔ (g.active < g.limit)
unfolding begin_lease
begin_lease_iff g = (λ h. ground arith, λ h. ground arith)

-- However jobs begin and end at a new gate, the gate counts exactly the jobs that are admitted and
-- have not ended, they are at most its limit, and another job is admitted exactly if they are fewer
-- than the limit.
pub Reachable-active :
    (limit : ℤ) {g₀ g : WorkAdmission} {jobs : List String}
    → new_gate limit ≡ ok g₀
    → Reachable g₀ (g, jobs)
    → (g.active ≡ length jobs)
      × (length jobs ≤ g₀.limit)
      × (((begin_lease g).0 ≡ ok tt) ↔ (length jobs < g₀.limit))
Reachable-active limit {g₀} {g} {jobs} made r =
    let (same, active, bounded) = Reachable-Counts g₀.limit (new_gate-Counts limit made) r in
    let (to, from) = begin_lease_iff g in
    (active, omega arith, (λ h. let room = to h in omega arith, λ h. from (omega arith)))
