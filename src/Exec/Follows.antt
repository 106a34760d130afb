-- ===== src/Exec/Follows.antt =====
-- Actions whose end state is related to their start state, by a relation that composes, and the
-- rules for the blocks that are built of them.
use prototype_cache.Prelude.{Bool, true, false, ◌≡◌, refl, sym, subst, Option, none, some}
use prototype_cache.Errors.{Result, ok, err, Error}
use prototype_cache.Exec.{
  Exec, resume, handled, pure, raise, lift, or_fail, raise_when, if_else, catch, ◌>>=◌,
}

module _ {W : Type 0} (R : W → W → Type 0) where
  pub record Follows {A : Type 0} (m : Exec W A) : Type 0 where
    pub at : (w : W) → R w (m w).1

  pub record Composes : Type 0 where
    pub stay : (w : W) → R w w
    pub then_on : (u v w : W) → R u v → R v w → R u w

  module _ (law : Composes) where
    module _ {A B : Type 0} where
      resume-Follows :
          (u : W) (r : Result A) (w : W) (f : A → Exec W B)
          → R u w
          → ((a : A) → Follows (f a))
          → R u (resume (r, w) f).1
      resume-Follows u (ok a) w f h k = law.then_on u w _ h ((k a).at w)
      resume-Follows u (err e) w f h k = h

      pub Follows-bind :
          (m : Exec W A) (f : A → Exec W B)
          → Follows m
          → ((a : A) → Follows (f a))
          → Follows (m >>= f)
      Follows-bind m f h k = record {
        at = λ w. let (r, v) = m w in resume-Follows w r v f (h.at w) k;
      }

      known-Follows :
          (P : A → Type 0) (u : W) (r : Result A) (w : W) (f : A → Exec W B)
          → R u w
          → ((a : A) → r ≡ ok a → P a)
          → ((a : A) → P a → Follows (f a))
          → R u (resume (r, w) f).1
      known-Follows P u (ok a) w f h p k = law.then_on u w _ h ((k a (p a refl)).at w)
      known-Follows P u (err e) w f h p k = h

      -- What the first action returned is known to what follows.
      pub Follows-known :
          (P : A → Type 0) (m : Exec W A) (f : A → Exec W B)
          → Follows m
          → ((w : W) (a : A) → (m w).0 ≡ ok a → P a)
          → ((a : A) → P a → Follows (f a))
          → Follows (m >>= f)
      Follows-known P m f h p k = record {
        at = λ w. let (r, v) = m w in known-Follows P w r v f (h.at w) (p w) k;
      }

    module _ {A : Type 0} where
      handled-Follows :
          (u : W) (r : Result A) (w : W) (f : Error → Exec W A)
          → R u w
          → ((e : Error) → Follows (f e))
          → R u (handled (r, w) f).1
      handled-Follows u (ok a) w f h k = h
      handled-Follows u (err e) w f h k = law.then_on u w _ h ((k e).at w)

      pub Follows-catch :
          (m : Exec W A) (f : Error → Exec W A)
          → Follows m
          → ((e : Error) → Follows (f e))
          → Follows (catch m f)
      Follows-catch m f h k = record {
        at = λ w. let (r, v) = m w in handled-Follows w r v f (h.at w) k;
      }

      -- What leaves the state as it is.
      pub Follows-same : (m : Exec W A) → ((w : W) → (m w).1 ≡ w) → Follows m
      Follows-same m h = record { at = λ w. subst (R w) (sym (h w)) (law.stay w) }

      pub Follows-pure : (a : A) → Follows (pure a)
      Follows-pure a = Follows-same (pure a) (λ w. refl)

      pub Follows-raise : (e : Error) → Follows (raise {A = A} e)
      Follows-raise e = Follows-same (raise e) (λ w. refl)

      pub Follows-lift : (r : Result A) → Follows (lift r)
      Follows-lift r = Follows-same (lift r) (λ w. refl)

      pub Follows-or_fail : (o : Option A) (e : Error) → Follows (or_fail o e)
      Follows-or_fail none e = Follows-same (or_fail none e) (λ w. refl)
      Follows-or_fail (some a) e = Follows-same (or_fail (some a) e) (λ w. refl)

      pub Follows-if_else :
          (b : Bool) (m n : Exec W A) → Follows m → Follows n → Follows (if_else b m n)
      Follows-if_else true m n h k = h
      Follows-if_else false m n h k = k

    pub Follows-raise_when : (b : Bool) (e : Error) → Follows (raise_when b e)
    Follows-raise_when true e = Follows-same (raise_when true e) (λ w. refl)
    Follows-raise_when false e = Follows-same (raise_when false e) (λ w. refl)
