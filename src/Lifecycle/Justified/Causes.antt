-- ===== src/Lifecycle/Justified/Causes.antt =====
-- The reasons for a planned action, and the actions that the age of an asset calls for.
use prototype_cache.Prelude.{
  ℕ, ◌+◌, ◌*◌, ◌≤◌, String, Bool, true, false, not, ◌≡◌, ◌⊎◌, refl, inl, inr, none, some, List, [],
  ◌∷◌, arith, leb, get_or, contains, if◌then◌else◌, Option-cases, subst, is_some,
}
use prototype_cache.Prelude.Dict.{lookup, text_key}
use prototype_cache.Prelude.Sort.{Every, Every-append}
use prototype_cache.Errors.{Result-cases, ok}
use prototype_cache.Models.{Asset, AssetState, pending, available, expired, deleted, inherit}
use prototype_cache.Retention.{second, is_past}
use prototype_cache.Retention.Deadlines.{is_past_at}
use prototype_cache.Lifecycle.Policy.{SweepPolicy, Action}
use prototype_cache.Lifecycle.Plan.{Plan, due, plan_due, pressed_spaces, add_action}

-- The reasons for an action.
pub data Cause (policy : SweepPolicy) (now : ℕ) : Action → Type 0 where
  -- a reservation that was given up
  abandoned :
      (a : Asset)
      → a.state ≡ pending
      → leb (a.created_at + policy.pending_seconds * second) now ≡ true
      → Cause policy now (record { asset = a; state = deleted; reason = "orphan"; purge = true })
  -- a deadline that has passed
  overdue :
      (a : Asset) (t : ℕ)
      → a.state ≡ available
      → a.expires_at ≡ some t
      → t ≤ now
      → Cause policy now
          (record { asset = a; state = expired; reason = "ttl_expired"; purge = false })
  -- a grace period that is over
  lapsed :
      (a : Asset) (grace : ℕ)
      → a.state ≡ expired
      → lookup a.space policy.grace_seconds ≡ some grace
      → leb (get_or a.expired_at a.updated_at + grace * second) now ≡ true
      → Cause policy now
          (record { asset = a; state = deleted; reason = "ttl_expired"; purge = true })
  -- bytes that a deletion left behind
  unpurged :
      (a : Asset)
      → a.state ≡ deleted
      → a.payload_deleted_at ≡ none
      → Cause policy now (record { asset = a; state = deleted; reason = "orphan"; purge = true })
  -- an eviction
  evicted :
      (a : Asset) (reason : String)
      → a.state ≡ available
      → a.eviction_policy ≡ inherit
      → contains a.space pressed_spaces ≡ true
      → (reason ≡ "quota_lfu") ⊎ (reason ≡ "pressure_lfu")
      → Cause policy now (record { asset = a; state = expired; reason = reason; purge = false })

-- What an action that is chosen by a test says.
chosen :
    (t : Bool) (x act : Action)
    → ok (if t then some x else none) ≡ ok (some act)
    → (t ≡ true) × (x ≡ act)
chosen true x act h = (refl, cc)
chosen false x act h = cc

module _ (policy : SweepPolicy) (now : ℕ) (Known : Asset → Type 0) where
  abbrev pub Fits : Action → Type 0
  Fits act = Known act.asset × Cause policy now act

  due-Fits :
      (a : Asset) (act : Action) (x : AssetState)
      → a.state ≡ x
      → Known a
      → due policy now a ≡ ok (some act)
      → Fits act
  unfolding due
  due-Fits a act pending e known h =
      let (old, same) =
        chosen (leb (a.created_at + policy.pending_seconds * second) now)
          (record { asset = a; state = deleted; reason = "orphan"; purge = true }) act
          (ground arith) in
      subst Fits same (known, abandoned a e old)
  due-Fits a act available e known h =
      let (past, same) =
        chosen (is_past a.expires_at now)
          (record { asset = a; state = expired; reason = "ttl_expired"; purge = false }) act
          (ground arith) in
      let (t, deadline, over) = is_past_at a.expires_at now past in
      subst Fits same (known, overdue a t e deadline over)
  due-Fits a act expired e known h = elim (Option-cases (lookup a.space policy.grace_seconds)) [
    | inl missing ↦ absurd (ground arith)
    | inr (grace, given) ↦
        let (over, same) =
          chosen (leb (get_or a.expired_at a.updated_at + grace * second) now)
            (record { asset = a; state = deleted; reason = "ttl_expired"; purge = true }) act
            (ground arith) in
        subst Fits same (known, lapsed a grace e given over)
  ]
  due-Fits a act deleted e known h =
      let (left, same) =
        chosen (not (is_some a.payload_deleted_at))
          (record { asset = a; state = deleted; reason = "orphan"; purge = true }) act
          (ground arith) in
      subst Fits same (known, unpurged a e (ground arith))

  abbrev pub AllFit : List Action → Type 0
  AllFit actions = Every Fits actions

  pub plan_due-AllFit :
      (assets : List Asset) (p q : Plan)
      → Every Known assets
      → AllFit p.actions
      → plan_due policy now assets p ≡ ok q
      → AllFit q.actions
  unfolding plan_due
  plan_due-AllFit [] p q known fits h =
      let same : p ≡ q = cc in subst (λ x. AllFit x.actions) same fits
  plan_due-AllFit (a ∷ rest) p q known fits h = elim (Result-cases (due policy now a)) [
    | inr (e, raised) ↦ absurd (ground arith)
    | inl (none, idle) ↦ plan_due-AllFit rest p q known.1 fits (ground arith)
    | inl (some act, acts) ↦
        plan_due-AllFit rest (add_action (some act) p) q known.1
          (Every-append Fits p.actions (act ∷ []) fits
            (due-Fits a act a.state refl known.0 acts, tt))
          (ground arith)
  ]
