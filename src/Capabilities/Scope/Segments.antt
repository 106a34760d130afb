-- ===== src/Capabilities/Scope/Segments.antt =====
-- A scope covers a path exactly if its segments begin the path's.
use Prim.Native.String.{◌++◌ as append}
use text.Mathlib.Text.{starts_with}
use text.Mathlib.TextEquality.{starts_with_iff}
use text.Mathlib.TextLemmas
use prototype_cache.Prelude.{
  String, ◌≡◌, ◌↔◌, true, ◌||◌, List, [], ◌∷◌, ◌++◌, ◌∙◌, sym, ap, arith, str_eq, eq_iff,
  Bool-cases, inl, inr,
}
use prototype_cache.Prelude.Text.{strip, split, join, slashed, is_slash}
use prototype_cache.Prelude.Text.Segments.{split_head, split-slashed, join-split, join-append}
use prototype_cache.Capabilities.Scope.{is_same_path_or_child}
use mathlib.Core.List.{append-nil}

-- The segments of a path, without the slashes at its ends.
unfoldable pub segments : String → List String
unfolding strip is_slash split
segments s = split (strip is_slash s)

covers_of_child :
    (c p : String)
    → starts_with c (append p "/") ≡ true
    → (rest : List String) × (split c ≡ split p ++ rest)
covers_of_child c p h =
    let (r, e) = (starts_with_iff c (append p "/")).0 h in
    (split r, ap split (sym e ∙ TextLemmas.append_assoc p "/" r) ∙ split-slashed p r)

child_of_covers :
    (c p v : String) (vs : List String)
    → split c ≡ split p ++ (v ∷ vs)
    → starts_with c (append p "/") ≡ true
child_of_covers c p v vs h =
    let (w, ws, e) = split_head p in
    let joined : c ≡ slashed p (join (v ∷ vs)) =
      sym (join-split c)
      ∙ ap join (h ∙ ap (λ (l : List String). l ++ (v ∷ vs)) e)
      ∙ join-append w ws v vs
      ∙ ap (λ (x : String). slashed x (join (v ∷ vs))) (ap join (sym e) ∙ join-split p) in
    (starts_with_iff c (append p "/")).1
      (join (v ∷ vs), TextLemmas.append_assoc p "/" (join (v ∷ vs)) ∙ sym joined)

same_of_covers : (c p : String) → split c ≡ split p ++ [] → c ≡ p
same_of_covers c p h = sym (join-split c) ∙ ap join (h ∙ append-nil (split p)) ∙ join-split p

-- The scope `prefix` covers `candidate` exactly if the segments of the candidate begin with all
-- segments of the prefix: `users/42/uploads` covers `users/42/uploads/a.jpg` and itself, and not
-- `users/42/uploads2/a.jpg`.
pub is_same_path_or_child_iff :
    (candidate prefix : String)
    → (is_same_path_or_child candidate prefix ≡ true)
      ↔ ((rest : List String) × (segments candidate ≡ segments prefix ++ rest))
unfolding is_same_path_or_child segments
is_same_path_or_child_iff candidate prefix = (
  λ h. forward (strip is_slash candidate) (strip is_slash prefix) h,
  λ (rest, e). backward (strip is_slash candidate) (strip is_slash prefix) rest e,
)
  where
    forward :
        (c p : String)
        → (str_eq c p || starts_with c (append p "/")) ≡ true
        → (rest : List String) × (split c ≡ split p ++ rest)
    forward c p h = elim (Bool-cases (str_eq c p)) [
      | inl same ↦ ([], ap split ((eq_iff c p).0 same) ∙ sym (append-nil (split p)))
      | inr other ↦ covers_of_child c p (ground arith)
    ]

    backward :
        (c p : String) (rest : List String)
        → split c ≡ split p ++ rest
        → (str_eq c p || starts_with c (append p "/")) ≡ true
    backward c p [] e = ground (arith, eq_iff c p, same_of_covers c p e)
    backward c p (v ∷ vs) e = ground (arith, child_of_covers c p v vs e)
