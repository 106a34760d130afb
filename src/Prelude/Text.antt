-- ===== src/Prelude/Text.antt =====
-- Python's `str` methods that the code uses: `strip`, `split` and `join`. A text is a list of
-- characters; `String` has its own `[]` and `∷`.
pub mod Segments
use Prim.Native.Nat.{ℕ, ◌+◌}
use Prim.Native.Char.{Char, code}
use Prim.Native.String
use Prim.Native.String.{String}
use mathlib.Core.Bool.{Bool, true, false, ◌&&◌, ◌||◌}
use mathlib.Core.List.{List, [], ◌∷◌}
use mathlib.Core.Option.{Option, none, some}
use prototype_cache.Prelude.Tests.{nat_eq, leb}
use text.Mathlib.Text.{◌==◌ as str_eq}

abbrev within : ℕ → ℕ → ℕ → Bool
within a b c = leb a c && leb c b

-- `str.isspace` of one character: the code points that `str.strip()` removes
unfoldable pub is_space : Char → Bool
is_space ch =
    let c = code ch in
    within 9 13 c
    || within 28 32 c
    || nat_eq c 0x85
    || nat_eq c 0xa0
    || nat_eq c 0x1680
    || within 0x2000 0x200a c
    || within 0x2028 0x2029 c
    || nat_eq c 0x202f
    || nat_eq c 0x205f
    || nat_eq c 0x3000

unfoldable pub is_slash : Char → Bool
is_slash c = nat_eq (code c) 47

unfoldable pub lstrip : (Char → Bool) → String → String
lstrip p String.[] = String.[]
lstrip p (String.◌∷◌ c s) =
    let rest = lstrip p s in elim (p c) [ true ↦ rest | false ↦ String.◌∷◌ c s ]

-- A character in front of a stripped rest: dropped if it is to be stripped and nothing follows.
abbrev pub strip_before : Bool → Char → String → String
strip_before true c String.[] = String.[]
strip_before true c (String.◌∷◌ d s) = String.◌∷◌ c (String.◌∷◌ d s)
strip_before false c s = String.◌∷◌ c s

unfoldable pub rstrip : (Char → Bool) → String → String
rstrip p String.[] = String.[]
rstrip p (String.◌∷◌ c s) = strip_before (p c) c (rstrip p s)

-- `s.strip()` is `strip is_space s`, and `s.strip("/")` is `strip is_slash s`
unfoldable pub strip : (Char → Bool) → String → String
unfolding lstrip rstrip
strip p s = rstrip p (lstrip p s)

abbrev pub cons_head : Char → List String → List String
cons_head c [] = String.◌∷◌ c String.[] ∷ []
cons_head c (w ∷ ws) = String.◌∷◌ c w ∷ ws

abbrev pub split_at : Bool → Char → List String → List String
split_at true c ws = String.[] ∷ ws
split_at false c ws = cons_head c ws

-- `s.split("/")`
unfoldable pub split : String → List String
unfolding is_slash
split String.[] = String.[] ∷ []
split (String.◌∷◌ c s) = split_at (is_slash c) c (split s)

-- `f"{a}/{b}"`
abbrev pub slashed : String → String → String
slashed a b = String.◌++◌ a (String.◌++◌ "/" b)

-- `"/".join(parts)`
unfoldable pub join : List String → String
join [] = String.[]
join (w ∷ []) = w
join (w ∷ v ∷ ws) = slashed w (join (v ∷ ws))

-- `s.split(sep)`, by a test for the separator
unfoldable pub split_on : (Char → Bool) → String → List String
split_on p String.[] = String.[] ∷ []
split_on p (String.◌∷◌ c s) = split_at (p c) c (split_on p s)

abbrev before_rest : Char → Option (String × String) → Option (String × String)
before_rest c none = none
before_rest c (some (a, b)) = some (String.◌∷◌ c a, b)

-- `s.partition(sep)`, by a test for the separator; `none`: there is none
unfoldable pub partition_on : (Char → Bool) → String → Option (String × String)
partition_on p String.[] = none
partition_on p (String.◌∷◌ c s) =
    let rest = before_rest c (partition_on p s) in
    elim (p c) [ true ↦ some (String.[], s) | false ↦ rest ]

-- the code points of `s.lower()`, where `s` is lowered within ASCII
unfoldable pub lower_codes : String → List ℕ
lower_codes String.[] = []
lower_codes (String.◌∷◌ c s) =
    let n = code c in (elim (within 65 90 n) [ true ↦ n + 32 | false ↦ n ]) ∷ lower_codes s

abbrev codes_eq : List ℕ → List ℕ → Bool
codes_eq [] [] = true
codes_eq (m ∷ ms) (n ∷ ns) = nat_eq m n && codes_eq ms ns
codes_eq _ _ = false

-- `s.lower() == t`, for a text `t` of small letters that no character beyond ASCII is lowered to
unfoldable pub lowers_to : String → String → Bool
unfolding lower_codes
lowers_to s t = codes_eq (lower_codes s) (lower_codes t)

abbrev at_last : Bool → Char → String → Option (String × String) → Option (String × String)
at_last b c s (some (x, y)) = some (String.◌∷◌ c x, y)
at_last true c s none = some (String.[], s)
at_last false c s none = none

-- `s.rpartition(sep)`, by a test for the separator; `none`: there is none
unfoldable pub rpartition_on : (Char → Bool) → String → Option (String × String)
rpartition_on p String.[] = none
rpartition_on p (String.◌∷◌ c s) = at_last (p c) c s (rpartition_on p s)

-- `s.endswith(t)`
unfoldable pub ends_with : String → String → Bool
ends_with String.[] t = str_eq String.[] t
ends_with (String.◌∷◌ c s) t = str_eq (String.◌∷◌ c s) t || ends_with s t
