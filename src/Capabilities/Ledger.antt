-- ===== src/Capabilities/Ledger.antt =====
-- src/asset_store_core/capabilities.py, `SingleUseLedger`: the identifiers of the single-use
-- capabilities that have been used. The lock makes a method one step; `now` is what its clock
-- reads.
pub mod Once
use prototype_cache.Prelude.{ℕ, String, true, false, ◌&&◌, [], ◌∷◌, leb, is_some, if◌then◌else◌}
use prototype_cache.Prelude.Dict.{Dict, lookup, insert, text_key}
use prototype_cache.Errors.{capability_already_consumed}
use prototype_cache.Exec.{Exec, pure, raise_when, modify, ◌>>=◌, ◌>>◌}
use prototype_cache.Capabilities.Scope.{Capability}

pub record SingleUseLedger : Type 0 where
  pub consumed : Dict String ℕ

-- `_prune_locked`: what has expired by `now` goes
unfoldable pub prune : ℕ → Dict String ℕ → Dict String ℕ
prune now [] = []
prune now ((capability_id, expires_at) ∷ rest) =
    let kept = prune now rest in
    if leb expires_at now then kept else (capability_id, expires_at) ∷ kept

unfoldable pub prune_expired : ℕ → Exec SingleUseLedger (Unit {0})
unfolding prune
prune_expired now = modify λ l. record l { consumed = prune now l.consumed }

-- the rest of `record_successful_use` for a single-use capability
unfoldable pub consume : Capability → Exec SingleUseLedger (Unit {0})
consume cap = do
  used ← λ l. pure (is_some (lookup cap.capability_id l.consumed)) l
  raise_when used capability_already_consumed
  modify λ l. record l { consumed = insert cap.capability_id cap.expires_at l.consumed }

unfoldable pub record_successful_use : Capability → ℕ → Exec SingleUseLedger (Unit {0})
unfolding prune_expired consume
record_successful_use cap now = do
  prune_expired now
  elim cap.single_use [ true ↦ consume cap | false ↦ pure tt ]

unfoldable pub assert_unused : Capability → ℕ → Exec SingleUseLedger (Unit {0})
unfolding prune_expired
assert_unused cap now = do
  prune_expired now
  used ← λ l. pure (cap.single_use && is_some (lookup cap.capability_id l.consumed)) l
  raise_when used capability_already_consumed
