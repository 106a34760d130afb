-- ===== src/Capabilities/Store/Held.antt =====
-- What is true of every capability in the store.
use prototype_cache.Prelude.{
  ℕ, ◌≡◌, ◌≤◌, String, arith, subst, some, leb, length, [], ◌∷◌, inl, inr, ◌⊎◌, Bool-cases, str_eq,
}
use prototype_cache.Prelude.Dict.{Dict, lookup, insert, text_key}
use prototype_cache.Prelude.Sort.{Every}
use prototype_cache.Errors.{Result, Result-cases}
use prototype_cache.Capabilities.Scope.{Capability}
use prototype_cache.Capabilities.Store.{CapabilityStore, prune, make_room, hold, issue, get}
use prototype_cache.Capabilities.Store.Bounds.{IsWithin, issue-IsWithin, length-prune}

module _ {ℓ} (P : Capability → Type ℓ) where
  abbrev pub Holds : Dict String Capability → Type ℓ
  Holds d = Every (λ (row : String × Capability). P row.1) d

  pub Holds-prune : (now : ℕ) (d : Dict String Capability) → Holds d → Holds (prune now d)
  unfolding prune
  Holds-prune now [] h = tt
  Holds-prune now ((id, cap) ∷ d) h = elim (Bool-cases (leb cap.expires_at now)) [
    | inl past ↦ rw past (Holds-prune now d h.1)
    | inr live ↦ rw live (h.0, Holds-prune now d h.1)
  ]

  pub Holds-insert :
      (id : String) (cap : Capability) (d : Dict String Capability)
      → P cap
      → Holds d
      → Holds (insert id cap d)
  unfolding insert
  Holds-insert id cap [] new h = (new, tt)
  Holds-insert id cap ((j, c) ∷ d) new h = elim (Bool-cases (str_eq j id)) [
    | inl same ↦ rw same (new, h.1)
    | inr other ↦ rw other (h.0, Holds-insert id cap d new h.1)
  ]

  pub Holds-lookup :
      (id : String) (cap : Capability) (d : Dict String Capability)
      → Holds d
      → lookup id d ≡ some cap
      → P cap
  unfolding lookup
  Holds-lookup id cap [] h found = cc
  Holds-lookup id cap ((j, c) ∷ d) h found = elim (Bool-cases (str_eq j id)) [
    | inl same ↦ let one : c ≡ cap = ground arith in subst P one h.0
    | inr other ↦ Holds-lookup id cap d h.1 (ground arith)
  ]

-- What the store holds after a grant.
issue_cases :
    (cap : Capability) (at : ℕ) (granted : Result (Unit {0})) (s : CapabilityStore)
    → let after = (issue cap at granted s).1.capabilities in
      let kept = prune at s.capabilities in
      (after ≡ kept) ⊎ (after ≡ insert cap.capability_id cap kept)
unfolding issue make_room hold
issue_cases cap at granted s =
    let kept = prune at s.capabilities in
    elim (Bool-cases (leb cap.expires_at at)) [
      | inl past ↦ inl (ground arith)
      | inr live ↦ elim (Bool-cases (leb s.max_capabilities (length kept))) [
        | inl full ↦ inl (ground arith)
        | inr room ↦ elim (Result-cases granted) [
          | inl (u, granted_ok) ↦ inr (ground arith)
          | inr (e, raised) ↦ inl (ground arith)
        ]
      ]
    ]

pub issue_capacity :
    (cap : Capability) (at : ℕ) (granted : Result (Unit {0})) (s : CapabilityStore)
    → (issue cap at granted s).1.max_capabilities ≡ s.max_capabilities
unfolding issue make_room hold
issue_capacity cap at granted s = ground arith

-- A store within its capacity, of which every capability has the property `P`.
module _ (P : Capability → Type 0) where
  abbrev pub Keeps : CapabilityStore → Type 0
  Keeps s = IsWithin s × Holds P s.capabilities

  pub issue-Keeps :
      (cap : Capability) (at : ℕ) (granted : Result (Unit {0})) (s : CapabilityStore)
      → P cap
      → Keeps s
      → Keeps (issue cap at granted s).1
  issue-Keeps cap at granted s new (within, held) =
      let kept = Holds-prune P at s.capabilities held in
      (
        issue-IsWithin s cap at granted within,
        elim (issue_cases cap at granted s) [
          | inl same ↦ rw same kept
          | inr added ↦
              rw added (Holds-insert P cap.capability_id cap (prune at s.capabilities) new kept)
        ],
      )

  within_prune :
      (at : ℕ) (s : CapabilityStore)
      → IsWithin s
      → length (prune at s.capabilities) ≤ s.max_capabilities
  within_prune at s within = let fewer = length-prune at s.capabilities in omega arith

  pub get-Keeps : (id : String) (at : ℕ) (s : CapabilityStore) → Keeps s → Keeps (get id at s).1
  unfolding get
  get-Keeps id at s (within, held) =
      (within_prune at s within, Holds-prune P at s.capabilities held)
