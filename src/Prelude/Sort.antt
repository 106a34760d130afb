-- ===== src/Prelude/Sort.antt =====
-- Python's `sorted`: stable, by a test that says which of two comes first.
use prototype_cache.Prelude.{keep}
use Prim.Native.Nat.{Ordering}
use Prim.Native.String
use prototype_cache.Prelude.Tests.{if◌then◌else◌}
use Prim.Native.String.{String}
use mathlib.Core.Path.{◌≡◌, refl}
use mathlib.Core.Bool.{Bool, true, false}
use mathlib.Core.List.{List, [], ◌∷◌, ◌++◌, Memᴰ}

module _ {ℓ} {A : Type ℓ} where
  unfoldable pub insert_by : (A → A → Bool) → A → List A → List A
  insert_by before a [] = a ∷ []
  insert_by before a (b ∷ rest) = if before b a then b ∷ insert_by before a rest else a ∷ b ∷ rest

  unfoldable pub sort_by : (A → A → Bool) → List A → List A
  unfolding insert_by
  sort_by before [] = []
  sort_by before (a ∷ rest) = insert_by before a (sort_by before rest)

-- `a < b` of two texts
abbrev pub text_before : String → String → Bool
text_before a b = elim (String.compare a b) [ Ordering.lt ↦ true | _ ↦ false ]

-- `a < b` of two pairs of texts
abbrev pub pair_before : String × String → String × String → Bool
pair_before (a, b) (c, d) = elim (String.compare a c) [
  | Ordering.lt ↦ true
  | Ordering.eq ↦ text_before b d
  | Ordering.gt ↦ false
]

module _ {ℓ κ} {A : Type ℓ} where
  -- Every item of the list has the property.
  abbrev pub Every : (A → Type κ) → List A → Type κ
  Every P [] = Unit {κ}
  Every P (a ∷ rest) = P a × Every P rest

module _ {ℓ κ} {A : Type ℓ} (P : A → Type κ) where
  pub Every-if :
      (t : Bool) (xs ys : List A) → Every P xs → Every P ys → Every P (if t then xs else ys)
  Every-if true xs ys h k = h
  Every-if false xs ys h k = k

  pub Every-append : (xs ys : List A) → Every P xs → Every P ys → Every P (xs ++ ys)
  Every-append [] ys h k = k
  Every-append (x ∷ xs) ys h k = (h.0, Every-append xs ys h.1 k)

  insert_by-Every :
      (before : A → A → Bool) (a : A) (xs : List A)
      → P a
      → Every P xs
      → Every P (insert_by before a xs)
  unfolding insert_by
  insert_by-Every before a [] h k = (h, tt)
  insert_by-Every before a (b ∷ rest) h k =
      Every-if (before b a) (b ∷ insert_by before a rest) (a ∷ b ∷ rest)
        (k.0, insert_by-Every before a rest h k.1) (h, k)

  pub sort_by-Every :
      (before : A → A → Bool) (xs : List A) → Every P xs → Every P (sort_by before xs)
  unfolding sort_by
  sort_by-Every before [] h = tt
  sort_by-Every before (a ∷ rest) h =
      insert_by-Every before a (sort_by before rest) h.0 (sort_by-Every before rest h.1)

module _ {ℓ κ} {A : Type ℓ} {P Q : A → Type κ} where
  pub Every-map : ((a : A) → P a → Q a) → (xs : List A) → Every P xs → Every Q xs
  Every-map f [] h = tt
  Every-map f (x ∷ xs) h = (f x h.0, Every-map f xs h.1)

module _ {ℓ} {A : Type ℓ} where
  pub Every-Mem : (xs : List A) → Every (λ a. Memᴰ a xs) xs
  Every-Mem [] = tt
  Every-Mem (x ∷ xs) = (Memᴰ.head refl, Every-map (λ a h. Memᴰ.tail h) xs (Every-Mem xs))

module _ {ℓ κ} {A : Type ℓ} where
  pub Every-when :
      (Q : A → Type κ) (b : Bool) (x : A) (rest : List A)
      → (b ≡ true → Q x)
      → Every Q rest
      → Every Q (if b then x ∷ rest else rest)
  Every-when Q true x rest h k = (h refl, k)
  Every-when Q false x rest h k = k

module _ {ℓ κ} {A : Type ℓ} {P Q : A → Type κ} (t : A → Bool) where
  -- What passes a test has the property and passes the test.
  pub keep-Every :
      ((a : A) → t a ≡ true → P a → Q a) → (xs : List A) → Every P xs → Every Q (keep t xs)
  keep-Every f [] h = tt
  keep-Every f (x ∷ xs) h = Every-when Q (t x) x (keep t xs) (λ e. f x e h.0) (keep-Every f xs h.1)
