-- ===== src/Admission.antt =====
-- src/asset_store_core/admission.py: `WorkAdmission`, the gate that admits at most `limit` jobs at
-- a time. The lock makes the beginning and the end of a lease one step each. Metrics, logging and
-- `run_work_until_complete`, which waits for a thread, are not modelled.
pub mod Jobs
use prototype_cache.Prelude.{ℕ, ◌+◌, ◌-◌, Option, none, some, not, ltb}
use prototype_cache.Prelude.Int.{ℤ, positive?}
use prototype_cache.Errors.{Result, ok, err, validation, work_capacity}
use prototype_cache.Exec.{Exec, gets, raise_when, modify, ◌>>=◌, ◌>>◌}

pub record WorkAdmission : Type 0 where
  pub limit : ℕ
  pub active : ℕ

-- `int(os.environ.get(name, str(default)))` is the argument; `none`: it is no integer
unfoldable pub positive_limit_from_env : Option ℤ → Result ℕ
positive_limit_from_env none = err validation
positive_limit_from_env (some value) = elim (positive? value) [
  | none ↦ err validation
  | some n ↦ ok n
]

unfoldable pub new_gate : ℤ → Result WorkAdmission
new_gate limit = elim (positive? limit) [
  | none ↦ err validation
  | some n ↦ ok (record { limit = n; active = 0 })
]

-- `active`
unfoldable pub occupancy : Exec WorkAdmission ℕ
occupancy = gets (λ g. g.active)

-- `lease`, up to its `yield`
unfoldable pub begin_lease : Exec WorkAdmission (Unit {0})
begin_lease = do
  admitted ← gets (λ g. ltb g.active g.limit)
  raise_when (not admitted) work_capacity
  modify λ g. record g { active = g.active + 1 }

-- the `finally` of `lease`
unfoldable pub end_lease : Exec WorkAdmission (Unit {0})
end_lease = modify λ g. record g { active = g.active - 1 }
