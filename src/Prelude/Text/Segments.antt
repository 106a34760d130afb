-- ===== src/Prelude/Text/Segments.antt =====
-- Laws of `split` and `join`: the segments of a path.
use Prim.Native.Char.{Char}
use Prim.Native.String
use Prim.Native.String.{String}
use Prim.Native.String.append
use text.Mathlib.TextEquality.{Char-path}
use text.Mathlib.TextLemmas
use mathlib.Core.Path.{◌≡◌, refl, sym, ap, ◌∙◌}
use mathlib.Core.Logic.{inl, inr}
use mathlib.Core.Bool.{true}
use mathlib.Core.List.{List, [], ◌∷◌, ◌++◌}
use native.Mathlib.Omega.{arith}
use prototype_cache.Prelude.Tests.{Bool-cases}
use prototype_cache.Prelude.Text.{split, cons_head, join, slashed, is_slash}

-- The text has a first segment.
pub split_head : (s : String) → (w : String) × (ws : List String) × (split s ≡ w ∷ ws)
unfolding split
split_head String.[] = (String.[], [], refl)
split_head (String.◌∷◌ c s) = elim (Bool-cases (is_slash c)) [
  | inl e ↦ (String.[], split s, rw e)
  | inr e ↦ let (w, ws, h) = split_head s in (String.◌∷◌ c w, ws, rw (e, h))
]

split-sep : (b : String) → split (String.◌++◌ "/" b) ≡ String.[] ∷ split b
unfolding split
split-sep b = rw append.cons (rw append.nil)

cons_head-append :
    (c : Char) (ws vs : List String)
    → (w : String) × (us : List String) × (ws ≡ w ∷ us)
    → cons_head c (ws ++ vs) ≡ cons_head c ws ++ vs
cons_head-append c ws vs (w, us, e) = rw e

-- The segments of `a/b` are those of `a` and then those of `b`.
pub split-slashed : (a b : String) → split (slashed a b) ≡ split a ++ split b
unfolding split
split-slashed String.[] b = rw append.nil (split-sep b)
split-slashed (String.◌∷◌ c a) b = rw append.cons (elim (Bool-cases (is_slash c)) [
  | inl e ↦ rw e (ap (λ (l : List String). String.[] ∷ l) (split-slashed a b))
  | inr e ↦ rw (e, split-slashed a b) (cons_head-append c (split a) (split b) (split_head a))
])

join-cons_head :
    (c : Char) (w : String) (ws : List String)
    → join (String.◌∷◌ c w ∷ ws) ≡ String.◌∷◌ c (join (w ∷ ws))
unfolding join
join-cons_head c w [] = refl
join-cons_head c w (v ∷ ws) = append.cons c w _

slash_char : (c : Char) (s : String) → is_slash c ≡ true → String.◌++◌ "/" s ≡ String.◌∷◌ c s
unfolding is_slash
slash_char c s e =
    rw append.cons
      (rw append.nil (ap (λ (x : Char). String.◌∷◌ x s) (Char-path "/" c (ground arith))))

-- Joining the segments gives the text back.
pub join-split : (s : String) → join (split s) ≡ s
unfolding split
join-split String.[] = unfold join in refl
join-split (String.◌∷◌ c s) = elim (Bool-cases (is_slash c)) [
  | inl e ↦ rw e (join_sep c s (split_head s) e (join-split s))
  | inr e ↦ rw e (join_head c s (split_head s) (join-split s))
]
  where
    join_sep :
        (c : Char) (s : String)
        → (w : String) × (ws : List String) × (split s ≡ w ∷ ws)
        → is_slash c ≡ true
        → join (split s) ≡ s
        → join (String.[] ∷ split s) ≡ String.◌∷◌ c s
    join_sep c s (w, ws, h) e ih = rw h (
        unfold join in
        rw append.nil (
          slash_char c (join (w ∷ ws)) e
          ∙ ap (λ (x : String). String.◌∷◌ c x) (ap join (sym h) ∙ ih)))

    join_head :
        (c : Char) (s : String)
        → (w : String) × (ws : List String) × (split s ≡ w ∷ ws)
        → join (split s) ≡ s
        → join (cons_head c (split s)) ≡ String.◌∷◌ c s
    join_head c s (w, ws, h) ih =
        rw h (join-cons_head c w ws ∙ ap (λ (x : String). String.◌∷◌ c x) (ap join (sym h) ∙ ih))

slashed_assoc : (a b c : String) → slashed (slashed a b) c ≡ slashed a (slashed b c)
slashed_assoc a b c =
    TextLemmas.append_assoc a (String.◌++◌ "/" b) (String.◌++◌ "/" c)
    ∙ ap (String.◌++◌ a) (TextLemmas.append_assoc "/" b (String.◌++◌ "/" c))

pub join-append :
    (w : String) (ws : List String) (v : String) (vs : List String)
    → join ((w ∷ ws) ++ (v ∷ vs)) ≡ slashed (join (w ∷ ws)) (join (v ∷ vs))
unfolding join
join-append w [] v vs = refl
join-append w (u ∷ ws) v vs =
    rw (join-append u ws v vs) (sym (slashed_assoc w (join (u ∷ ws)) (join (v ∷ vs))))
