-- ===== src/Capabilities/Store/Bounds.antt =====
-- The store of capabilities stays within its capacity, and gives out live capabilities only.
use prototype_cache.Prelude.{eq_iff, ℕ, ◌+◌, ◌≤◌, ◌<◌, String, ◌≡◌, some, [], ◌∷◌, arith, length}
use prototype_cache.Prelude.Dict.{Dict, lookup, insert, lookup-insert, text_key}
use prototype_cache.Errors.{Result, ok}
use prototype_cache.Capabilities.Scope.{Capability}
use prototype_cache.Capabilities.Store.{CapabilityStore, prune, make_room, hold, issue, get}

pub length-prune : (now : ℕ) (d : Dict String Capability) → length (prune now d) ≤ length d
unfolding prune
length-prune now [] = omega arith
length-prune now ((id, cap) ∷ d) = ground (arith, length-prune now d)

length-insert :
    (id : String) (cap : Capability) (d : Dict String Capability)
    → length (insert id cap d) ≤ length d + 1
unfolding insert
length-insert id cap [] = omega arith
length-insert id cap ((j, c) ∷ d) = ground (arith, length-insert id cap d)

lookup-prune_live :
    (now : ℕ) (id : String) (cap : Capability) (d : Dict String Capability)
    → lookup id (prune now d) ≡ some cap
    → now < cap.expires_at
unfolding prune lookup
lookup-prune_live now id cap [] h = cc
lookup-prune_live now id cap ((j, c) ∷ d) h = ground (arith, lookup-prune_live now id cap d)

abbrev pub IsWithin : CapabilityStore → Type 0
IsWithin s = length s.capabilities ≤ s.max_capabilities

-- A store within its capacity stays so, whatever is issued or refused, and whether or not the audit
-- of the grant raises.
pub issue-IsWithin :
    (s : CapabilityStore) (cap : Capability) (now : ℕ) (granted : Result (Unit {0}))
    → IsWithin s
    → IsWithin (issue cap now granted s).1
unfolding issue make_room hold
issue-IsWithin s cap now granted h = ground (
  arith,
  length-prune now s.capabilities,
  length-insert cap.capability_id cap (prune now s.capabilities),
)

lookup-prune :
    (id : String) (cap : Capability) (now : ℕ) (d : Dict String Capability)
    → lookup id d ≡ some cap
    → now < cap.expires_at
    → lookup id (prune now d) ≡ some cap
unfolding lookup prune
lookup-prune id cap now [] h live = h
lookup-prune id cap now ((j, c) ∷ d) h live = ground (arith, lookup-prune id cap now d)

-- A capability that is issued had not expired and its grant was audited, and until it expires a
-- lookup of its identifier gives it.
pub issue-get :
    (s : CapabilityStore) (cap : Capability) (now later : ℕ) (granted : Result (Unit {0}))
    → (issue cap now granted s).0 ≡ ok tt
    → later < cap.expires_at
    → (granted ≡ ok tt)
      × (now < cap.expires_at)
      × ((get cap.capability_id later (issue cap now granted s).1).0 ≡ ok (some cap))
unfolding issue make_room hold get
issue-get s cap now later granted h live =
    let kept =
      lookup-prune cap.capability_id cap later
        (insert cap.capability_id cap (prune now s.capabilities))
        (lookup-insert_same cap.capability_id cap (prune now s.capabilities)) live in
    (ground arith, ground arith, ground (arith, kept))
  where
    lookup-insert_same :
        (id : String) (c : Capability) (d : Dict String Capability)
        → lookup id (insert id c d) ≡ some c
    lookup-insert_same id c d = ground (arith, lookup-insert id id c d, eq_iff id id)

-- A lookup never gives a capability that has expired.
pub get_live :
    (s : CapabilityStore) (id : String) (now : ℕ) (cap : Capability)
    → (get id now s).0 ≡ ok (some cap)
    → now < cap.expires_at
unfolding get
get_live s id now cap found = lookup-prune_live now id cap s.capabilities (ground arith)
