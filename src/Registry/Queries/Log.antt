-- ===== src/Registry/Queries/Log.antt =====
-- What `recent_audit` returns.
use prototype_cache.Prelude.{
  ℕ, ◌+◌, ◌-◌, ◌≤◌, String, ◌≡◌, ◌⊎◌, Option, List, [], ◌∷◌, ◌++◌, refl, ap, sym, ◌∙◌, arith, inl,
  inr, keep, drop, length, length-append,
}
use prototype_cache.Errors.{ok}
use prototype_cache.Models.{AuditEvent}
use prototype_cache.Registry.State.{Registry}
use prototype_cache.Registry.Queries.{concerns, recent_audit}

-- A list is what `drop` takes off and what it leaves.
drop-append :
    (n : ℕ) (events : List AuditEvent)
    → n ≤ length events
    → (older : List AuditEvent) × (events ≡ older ++ drop n events) × (length older ≡ n)
drop-append ℕ.zero events h = ([], refl, refl)
drop-append (ℕ.suc n) [] h = absurd (omega arith)
drop-append (ℕ.suc n) (e ∷ events) h =
    let (older, whole, counted) = drop-append n events (omega arith) in
    (e ∷ older, ap (λ (l : List AuditEvent). e ∷ l) whole, omega arith)

-- The log that is returned is the end of the log of the events that concern the asset, in their
-- order: at most `limit` of them, and all of them unless it is `limit` of them.
pub recent_audit-end :
    (s : Registry) (asset_id : Option String) (limit : ℕ) (events : List AuditEvent)
    → recent_audit s asset_id limit ≡ ok events
    → (older : List AuditEvent) × (keep (concerns asset_id) s.audit_events ≡ older ++ events)
      × (length events ≤ limit)
      × ((older ≡ []) ⊎ (length events ≡ limit))
unfolding recent_audit
recent_audit-end s asset_id limit events h =
    let all = keep (concerns asset_id) s.audit_events in
    let left : events ≡ drop (length all - limit) all = ground arith in
    let (older, whole, counted) = drop-append (length all - limit) all (omega arith) in
    let split : all ≡ older ++ events =
      whole ∙ ap (λ (l : List AuditEvent). older ++ l) (sym left) in
    let sizes : length all ≡ length older + length events =
      ap (λ (l : List AuditEvent). length l) split ∙ length-append older events in
    (older, split, omega arith, all_or_limit older (length all) counted sizes)
  where
    all_or_limit :
        (older : List AuditEvent) (n : ℕ)
        → length older ≡ n - limit
        → n ≡ length older + length events
        → (older ≡ []) ⊎ (length events ≡ limit)
    all_or_limit [] n counted sizes = inl refl
    all_or_limit (e ∷ older) n counted sizes = inr (omega arith)
