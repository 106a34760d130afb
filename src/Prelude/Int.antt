-- ===== src/Prelude/Int.antt =====
-- Python's signed integers, for the arguments whose sign the code tests.
use Prim.Native.Nat.{ℕ, suc}
use mathlib.Core.Option.{Option, none, some}

-- `negsuc n` is -(n + 1)
pub data ℤ : Type 0 where
  pos : ℕ → ℤ
  negsuc : ℕ → ℤ

-- The number, if it is not negative.
abbrev pub to_ℕ? : ℤ → Option ℕ
to_ℕ? (pos n) = some n
to_ℕ? (negsuc n) = none

-- The number, if it is positive.
abbrev pub positive? : ℤ → Option ℕ
positive? (pos ℕ.zero) = none
positive? (pos (suc n)) = some (suc n)
positive? (negsuc n) = none
