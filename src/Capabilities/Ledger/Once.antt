-- ===== src/Capabilities/Ledger/Once.antt =====
-- A single-use capability is used once.
use prototype_cache.Prelude.{ℕ, ◌<◌, String, ◌≡◌, true, some, List, [], ◌∷◌, arith, eq_iff}
use prototype_cache.Prelude.Dict.{Dict, lookup, lookup-insert, text_key}
use prototype_cache.Errors.{ok, err, capability_already_consumed}
use prototype_cache.Capabilities.Scope.{Capability}
use prototype_cache.Capabilities.Ledger.{
  SingleUseLedger, prune, prune_expired, record_successful_use, assert_unused,
}

-- The methods of the ledger, each with the time that it reads.
pub data Request : Type 0 where
  tidy : ℕ → Request
  check : Capability → ℕ → Request
  use_up : Capability → ℕ → Request

abbrev pub time_of : Request → ℕ
time_of (tidy now) = now
time_of (check cap now) = now
time_of (use_up cap now) = now

-- The ledger after a request, which may raise.
unfoldable pub handle : Request → SingleUseLedger → SingleUseLedger
handle (tidy now) l = (prune_expired now l).1
handle (check cap now) l = (assert_unused cap now l).1
handle (use_up cap now) l = (record_successful_use cap now l).1

unfoldable pub serve : List Request → SingleUseLedger → SingleUseLedger
unfolding handle
serve [] l = l
serve (r ∷ rest) l = serve rest (handle r l)

-- Every request comes before `t`.
abbrev pub AllBefore : ℕ → List Request → Type 0
AllBefore t [] = Unit {0}
AllBefore t (r ∷ rest) = (time_of r < t) × AllBefore t rest

abbrev Holds : String → ℕ → SingleUseLedger → Type 0
Holds id t l = lookup id l.consumed ≡ some t

lookup-prune :
    (id : String) (t now : ℕ) (d : Dict String ℕ)
    → lookup id d ≡ some t
    → now < t
    → lookup id (prune now d) ≡ some t
unfolding lookup prune
lookup-prune id t now [] h before = h
lookup-prune id t now ((j, u) ∷ d) h before = ground (arith, lookup-prune id t now d)

handle-Holds :
    (id : String) (t : ℕ) (r : Request) (l : SingleUseLedger)
    → Holds id t l
    → time_of r < t
    → Holds id t (handle r l)
unfolding handle prune_expired assert_unused record_successful_use
handle-Holds id t (tidy now) l h before = lookup-prune id t now l.consumed h before
handle-Holds id t (check cap now) l h before =
    ground (arith, lookup-prune id t now l.consumed h before)
handle-Holds id t (use_up cap now) l h before = ground (
  arith,
  lookup-prune id t now l.consumed h before,
  lookup-insert cap.capability_id id cap.expires_at (prune now l.consumed),
  eq_iff cap.capability_id id,
)

serve-Holds :
    (id : String) (t : ℕ) (rs : List Request) (l : SingleUseLedger)
    → Holds id t l
    → AllBefore t rs
    → Holds id t (serve rs l)
unfolding serve
serve-Holds id t [] l h before = h
serve-Holds id t (r ∷ rs) l h before =
    serve-Holds id t rs (handle r l) (handle-Holds id t r l h before.0) before.1

record_successful_use-Holds :
    (cap : Capability) (now : ℕ) (l : SingleUseLedger)
    → cap.single_use ≡ true
    → (record_successful_use cap now l).0 ≡ ok tt
    → Holds cap.capability_id cap.expires_at (record_successful_use cap now l).1
unfolding record_successful_use
record_successful_use-Holds cap now l single h = ground (
  arith,
  lookup-insert cap.capability_id cap.capability_id cap.expires_at (prune now l.consumed),
  eq_iff cap.capability_id cap.capability_id,
)

-- Once a single-use capability has been used successfully, and whatever requests the ledger then
-- serves before the capability expires, those for other capabilities and repeated uses included,
-- another use and another check before the expiry both raise.
pub single_use_once :
    (cap : Capability) (now later : ℕ) (rs : List Request) (l : SingleUseLedger)
    → cap.single_use ≡ true
    → (record_successful_use cap now l).0 ≡ ok tt
    → AllBefore cap.expires_at rs
    → later < cap.expires_at
    → let after = serve rs (record_successful_use cap now l).1 in
      ((record_successful_use cap later after).0 ≡ err capability_already_consumed)
      × ((assert_unused cap later after).0 ≡ err capability_already_consumed)
single_use_once cap now later rs l single used before due =
    let after = serve rs (record_successful_use cap now l).1 in
    let kept =
      lookup-prune cap.capability_id cap.expires_at later after.consumed
        (serve-Holds cap.capability_id cap.expires_at rs (record_successful_use cap now l).1
          (record_successful_use-Holds cap now l single used) before)
        due in
    (again cap later after single kept, again_checked cap later after single kept)
  where
    again :
        (cap : Capability) (later : ℕ) (after : SingleUseLedger)
        → cap.single_use ≡ true
        → lookup cap.capability_id (prune later after.consumed) ≡ some cap.expires_at
        → (record_successful_use cap later after).0 ≡ err capability_already_consumed
    again cap later after single kept = unfold record_successful_use in ground arith

    again_checked :
        (cap : Capability) (later : ℕ) (after : SingleUseLedger)
        → cap.single_use ≡ true
        → lookup cap.capability_id (prune later after.consumed) ≡ some cap.expires_at
        → (assert_unused cap later after).0 ≡ err capability_already_consumed
    again_checked cap later after single kept = unfold assert_unused in ground arith
