-- ===== src/Capabilities/Store.antt =====
-- src/asset_store_core/capabilities.py, `CapabilityStore`: the live capabilities of the process,
-- at most `max_capabilities`. The lock makes a method one step; `now` is what its clock reads. The
-- callback of `issue` is the audit of the grant: its result says whether it raised.
pub mod Bounds
pub mod Held
use prototype_cache.Prelude.{ℕ, String, Option, none, some, [], ◌∷◌, leb, length, if◌then◌else◌}
use prototype_cache.Prelude.Int.{ℤ, positive?}
use prototype_cache.Prelude.Dict.{Dict, lookup, insert, text_key}
use prototype_cache.Errors.{Result, ok, err, validation, capability_capacity}
use prototype_cache.Exec.{Exec, pure, lift, raise_when, modify, ◌>>=◌, ◌>>◌}
use prototype_cache.Capabilities.Scope.{Capability}

pub record CapabilityStore : Type 0 where
  pub max_capabilities : ℕ
  pub capabilities : Dict String Capability

unfoldable pub new_store : ℤ → Result CapabilityStore
new_store max_capabilities = elim (positive? max_capabilities) [
  | none ↦ err validation
  | some n ↦ ok (record { max_capabilities = n; capabilities = [] })
]

-- `_prune_locked`
unfoldable pub prune : ℕ → Dict String Capability → Dict String Capability
prune now [] = []
prune now ((capability_id, cap) ∷ rest) =
    let kept = prune now rest in
    if leb cap.expires_at now then kept else (capability_id, cap) ∷ kept

abbrev prune_store : ℕ → Exec CapabilityStore (Unit {0})
prune_store now = modify λ s. record s { capabilities = prune now s.capabilities }

-- `issue`, up to the callback
unfoldable pub make_room : Capability → ℕ → Exec CapabilityStore (Unit {0})
unfolding prune
make_room cap now = do
  prune_store now
  raise_when (leb cap.expires_at now) validation
  is_full ← λ s. pure (leb s.max_capabilities (length s.capabilities)) s
  raise_when is_full capability_capacity

-- `issue`, after the callback
unfoldable pub hold : Capability → Exec CapabilityStore (Unit {0})
hold cap = modify λ s. record s { capabilities = insert cap.capability_id cap s.capabilities }

unfoldable pub issue : Capability → ℕ → Result (Unit {0}) → Exec CapabilityStore (Unit {0})
unfolding make_room hold
issue cap now on_grant = do make_room cap now; lift on_grant; hold cap

unfoldable pub get : String → ℕ → Exec CapabilityStore (Option Capability)
unfolding prune
get capability_id now = do prune_store now; λ s. pure (lookup capability_id s.capabilities) s

-- `__len__`
unfoldable pub size : ℕ → Exec CapabilityStore ℕ
unfolding prune
size now = do prune_store now; λ s. pure (length s.capabilities) s
