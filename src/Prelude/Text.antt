-- ===== src/Prelude/Text.antt =====
-- Python's string methods that the program calls, over the characters of a text.
use Prim.Native.Nat.{ℕ, zero, suc, ◌≤◌}
use Prim.Native.Char.{Char, code}
use Prim.Native.String.{String}
use mathlib.Core.Bool.{Bool, true, false, ◌&&◌, ◌||◌}
use mathlib.Core.Option.{Option, none, some}
use mathlib.Core.List.{List, [], ◌∷◌}
use native.Mathlib.Omega.{arith}
use selfhost_tip_overlay.Prelude.Tests.{leb, ◌==◌, if◌then◌else◌}

-- The characters that `str.strip` and the pattern `\s` take for white space.
unfoldable pub is_space : Char → Bool
is_space ch =
    let c = code ch in
    (leb 9 c && leb c 13)
    || (leb 28 c && leb c 32)
    || c == 0x85
    || c == 0xa0
    || c == 0x1680
    || (leb 0x2000 c && leb c 0x200a)
    || c == 0x2028
    || c == 0x2029
    || c == 0x202f
    || c == 0x205f
    || c == 0x3000

abbrev pub is_empty : String → Bool
is_empty String.[] = true
is_empty (String.◌∷◌ c s) = false

unfoldable pub lstrip : String → String
unfolding is_space
lstrip String.[] = String.[]
lstrip (String.◌∷◌ c s) = let rest = lstrip s in if is_space c then rest else String.◌∷◌ c s

unfoldable pub rstrip : String → String
unfolding is_space
rstrip String.[] = String.[]
rstrip (String.◌∷◌ c s) =
    let rest = rstrip s in if is_space c && is_empty rest then String.[] else String.◌∷◌ c rest

unfoldable pub strip : String → String
unfolding lstrip rstrip
strip s = rstrip (lstrip s)

-- `s[:n]`
unfoldable pub prefix : ℕ → String → String
prefix zero s = String.[]
prefix (suc n) String.[] = String.[]
prefix (suc n) (String.◌∷◌ c s) = String.◌∷◌ c (prefix n s)

-- `len(s)`
unfoldable pub len : String → ℕ
len String.[] = 0
len (String.◌∷◌ c s) = suc (len s)

-- A character in front of the first piece.
abbrev onto_first : Char → List String → List String
onto_first c [] = String.◌∷◌ c String.[] ∷ []
onto_first c (p ∷ ps) = String.◌∷◌ c p ∷ ps

-- `s.split(sep)` for a separator of one character, given by its code.
unfoldable pub split : ℕ → String → List String
split sep String.[] = String.[] ∷ []
split sep (String.◌∷◌ c s) =
    let rest = split sep s in if code c == sep then String.[] ∷ rest else onto_first c rest

-- `s.partition(sep)`: what stands before and after the first separator; `none` where there is none.
unfoldable pub partition : ℕ → String → Option (String × String)
partition sep String.[] = none
partition sep (String.◌∷◌ c s) =
    let rest = partition sep s in
    if code c == sep
    then some (String.[], s)
    else elim rest [ none ↦ none | some (a, b) ↦ some (String.◌∷◌ c a, b) ]

-- `s.isascii()`
unfoldable pub is_ascii : String → Bool
is_ascii String.[] = true
is_ascii (String.◌∷◌ c s) = leb (code c) 127 && is_ascii s

pub len-prefix-le : (n : ℕ) (s : String) → len (prefix n s) ≤ n
unfolding len prefix
len-prefix-le zero s = omega arith
len-prefix-le (suc n) String.[] = omega arith
len-prefix-le (suc n) (String.◌∷◌ c s) = omega (arith, len-prefix-le n s)
