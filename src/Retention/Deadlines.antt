-- ===== src/Retention/Deadlines.antt =====
-- What deadlines `expiry_for` gives, which assets `require_live` lets through, and which maintenance
-- transitions are allowed.
use prototype_cache.Prelude.{
  Bool, ℕ, ◌+◌, ◌*◌, ◌≤◌, ◌<◌, ◌≡◌, ◌↔◌, ◌⊎◌, true, false, refl, inl, inr, Option, none, some,
  arith, Option-cases, Bool-cases,
}
use prototype_cache.Prelude.Int.{ℤ, pos, negsuc}
use prototype_cache.Errors.{ok, err, asset_deleted, asset_expired}
use prototype_cache.Models.{Asset, AssetState, pending, available, expired, deleted, state_eq}
use prototype_cache.Env.{Env}
use prototype_cache.Retention.{
  second, max_time, add_seconds, bounded_expiry, expiry_for, is_past, require_live,
  validate_cleanup_transition,
}

-- A deadline lies after now, and at most `maximum` seconds after it.
bounded_expiry_range :
    (ttl : ℤ) (maximum now : ℕ) (d : Option ℕ)
    → bounded_expiry (some ttl) (some maximum) now ≡ ok d
    → (t : ℕ) × (d ≡ some t) × (now < t) × (t ≤ now + maximum * second) × (t ≤ max_time)
unfolding bounded_expiry add_seconds
bounded_expiry_range (negsuc n) maximum now d h = cc
bounded_expiry_range (pos ℕ.zero) maximum now d h = cc
bounded_expiry_range (pos (ℕ.suc n)) maximum now d h =
    (now + ℕ.suc n * second, ground arith, ground arith, ground arith, ground arith)

-- A deadline that is given for the bucket `tmp`, asked for or by default, is there, lies after
-- now and at most seven days after it, and is a time that `datetime` can represent.
pub expiry_for_tmp :
    (env : Env) (ttl : Option ℤ) (now : ℕ) (d : Option ℕ)
    → expiry_for env "tmp" ttl now ≡ ok d
    → (t : ℕ) × (d ≡ some t) × (now < t) × (t ≤ now + 604800 * second) × (t ≤ max_time)
unfolding expiry_for
expiry_for_tmp env none now d h = bounded_expiry_range (pos 86400) 604800 now d h
expiry_for_tmp env (some ttl) now d h = bounded_expiry_range ttl 604800 now d h

-- In the bucket `results` the configured maximum bounds every deadline, and is the default.
pub expiry_for_results :
    (env : Env) (maximum : ℕ) (ttl : Option ℤ) (now : ℕ) (d : Option ℕ)
    → env.results_max_ttl ≡ some (pos maximum)
    → expiry_for env "results" ttl now ≡ ok d
    → (t : ℕ) × (d ≡ some t) × (now < t) × (t ≤ now + maximum * second) × (t ≤ max_time)
unfolding expiry_for
expiry_for_results env ℕ.zero ttl now d c h = ground arith
expiry_for_results env (ℕ.suc m) none now d c h =
    bounded_expiry_range (pos (ℕ.suc m)) (ℕ.suc m) now d (ground arith)
expiry_for_results env (ℕ.suc m) (some ttl) now d c h =
    bounded_expiry_range ttl (ℕ.suc m) now d (ground arith)

-- The time lies before the deadline, if there is one.
abbrev pub IsWithin : Option ℕ → ℕ → Type 0
IsWithin deadline now = (deadline ≡ none) ⊎ ((t : ℕ) × (deadline ≡ some t) × (now < t))

pub is_past_iff :
    (deadline : Option ℕ) (now : ℕ) → (is_past deadline now ≡ false) ↔ IsWithin deadline now
unfolding is_past
is_past_iff none now = (λ h. inl refl, λ h. refl)
is_past_iff (some t) now = (λ h. inr (t, refl, ground arith), λ h. ground arith)

pub is_past_at :
    (deadline : Option ℕ) (now : ℕ)
    → is_past deadline now ≡ true
    → (t : ℕ) × (deadline ≡ some t) × (t ≤ now)
unfolding is_past
is_past_at none now h = cc
is_past_at (some t) now h = (t, refl, ground arith)

-- The check of liveness passes exactly on a pending asset, and on an available one at a time that
-- is before its deadline, if it has one; it raises that the asset is deleted exactly on a deleted one,
-- and that it has expired exactly on an expired one and on an available one at or after its deadline.
pub require_live_iff :
    (a : Asset) (now : ℕ)
    → ((require_live a now ≡ ok tt)
        ↔ ((a.state ≡ pending) ⊎ ((a.state ≡ available) × IsWithin a.expires_at now)))
      × ((require_live a now ≡ err asset_deleted) ↔ (a.state ≡ deleted))
      × ((require_live a now ≡ err asset_expired) ↔ (
          (a.state ≡ expired)
          ⊎ ((a.state ≡ available) × (t : ℕ) × (a.expires_at ≡ some t) × (t ≤ now))))
unfolding require_live is_past
require_live_iff a now = (
  (
    λ h. ground (arith, is_past_iff a.expires_at now),
    λ h. ground (arith, is_past_iff a.expires_at now),
  ),
  (λ h. ground arith, λ h. ground arith),
  (λ h. expired_at h, λ h. ground arith),
)
  where
    expired_at :
        require_live a now ≡ err asset_expired
        → (a.state ≡ expired)
          ⊎ ((a.state ≡ available) × (t : ℕ) × (a.expires_at ≡ some t) × (t ≤ now))
    expired_at h = elim (Option-cases a.expires_at) [
      | inl never ↦ inl (ground arith)
      | inr (t, at) ↦ elim (Bool-cases (state_eq a.state expired)) [
        | inl over ↦ inl (ground arith)
        | inr live ↦ inr (ground arith, t, at, ground arith)
      ]
    ]

-- A maintenance transition is allowed exactly if no payload deletion is recorded yet, and it is one
-- of: from available to expired, without a deletion of the payload; from pending or expired to
-- deleted, without one too; and on a deleted asset, which stays deleted.
pub validate_cleanup_transition_iff :
    (a : Asset) (next : AssetState) (purged : Bool)
    → (validate_cleanup_transition a next purged ≡ ok tt) ↔ (
        (a.payload_deleted_at ≡ none)
        × (((a.state ≡ available) × (next ≡ expired) × (purged ≡ false))
            ⊎ (((a.state ≡ pending) ⊎ (a.state ≡ expired)) × (next ≡ deleted) × (purged ≡ false))
            ⊎ ((a.state ≡ deleted) × (next ≡ deleted))))
unfolding validate_cleanup_transition
validate_cleanup_transition_iff a next purged = (λ h. ground arith, λ h. ground arith)
