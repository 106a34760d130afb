-- ===== src/Exec.antt =====
-- Methods that change an object and may raise. What was written before a raise stays written, so
-- the state comes back beside an error too.
pub mod Follows
use prototype_cache.Prelude.{Bool, true, false, Option, none, some, ◌≡◌, refl}
use prototype_cache.Errors.{Error, Result, ok, err}

abbrev pub Exec {ℓ κ} : Type ℓ → Type κ → Type (ℓ ⊔ κ)
Exec S A = S → Result A × S

module _ {ℓ κ} {S : Type ℓ} {A : Type κ} where
  abbrev pub pure : A → Exec S A
  pure a s = (ok a, s)

  abbrev pub raise : Error → Exec S A
  raise e s = (err e, s)

  -- a pure function that may raise
  abbrev pub lift : Result A → Exec S A
  lift r s = (r, s)

  abbrev pub gets : (S → A) → Exec S A
  gets f s = (ok (f s), s)

module _ {ℓ} {S : Type ℓ} where
  abbrev pub modify : (S → S) → Exec S (Unit {0})
  modify f s = (ok tt, f s)

  -- `if test: raise e`
  abbrev pub raise_when : Bool → Error → Exec S (Unit {0})
  raise_when true e s = (err e, s)
  raise_when false e s = (ok tt, s)

module _ {ℓ κ} {S : Type ℓ} {A : Type κ} where
  -- `d[k]` inside `try: ... except KeyError: raise e`
  abbrev pub or_fail : Option A → Error → Exec S A
  or_fail none e s = (err e, s)
  or_fail (some a) e s = (ok a, s)

module _ {ℓ κ μ} {S : Type ℓ} {A : Type κ} {B : Type μ} where
  abbrev pub resume : Result A × S → (A → Exec S B) → Result B × S
  resume (ok a, s) f = f a s
  resume (err e, s) f = (err e, s)

  infixl 10 ◌>>=◌ ◌>>◌
  abbrev pub ◌>>=◌ : Exec S A → (A → Exec S B) → Exec S B
  ◌>>=◌ m f s = resume (m s) f

  abbrev pub ◌>>◌ : Exec S A → Exec S B → Exec S B
  ◌>>◌ m n s = resume (m s) (λ _. n)

module _ {ℓ κ} {S : Type ℓ} {A : Type κ} where
  abbrev pub handled : Result A × S → (Error → Exec S A) → Result A × S
  handled (ok a, s) handler = (ok a, s)
  handled (err e, s) handler = handler e s

  -- `try: ... except Exception as e: ...`
  abbrev pub catch : Exec S A → (Error → Exec S A) → Exec S A
  catch m handler s = handled (m s) handler

module _ {ℓ κ} {S : Type ℓ} {A : Type κ} where
  -- `if test: ... else: ...`
  abbrev pub if_else : Bool → Exec S A → Exec S A → Exec S A
  if_else true m n = m
  if_else false m n = n

-- A block that returns: its first action returned, and then the rest did.
pub resume-ok :
    {A B W : Type 0} (r : Result A × W) (f : A → Exec W B) (b : B)
    → (resume r f).0 ≡ ok b
    → (a : A) × (r.0 ≡ ok a) × ((f a r.1).0 ≡ ok b)
resume-ok (ok a, w) f b h = (a, refl, h)
resume-ok (err e, w) f b h = cc

-- The same, with the state that is left.
pub resume-at :
    {A B W : Type 0} (r : Result A × W) (f : A → Exec W B) (b : B)
    → (resume r f).0 ≡ ok b
    → (a : A) × (r.0 ≡ ok a) × (resume r f ≡ f a r.1)
resume-at (ok a, w) f b h = (a, refl, refl)
resume-at (err e, w) f b h = cc
