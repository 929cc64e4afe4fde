-- ===== src/Prelude/Text.antt =====
-- JavaScript strings as lists of UTF-16 code units, with the built-in methods that the code calls.
use Prim.Native.Char.{code}
use Prim.Native.String.{String}
use Prim.Native.Nat.{ℕ, ◌+◌, ◌-◌, ◌*◌}
use mathlib.Core.Path.{◌≡◌}
use mathlib.Core.Logic.{◌↔◌}
use mathlib.Core.Bool.{Bool, true, false, ◌&&◌, ◌||◌}
use mathlib.Core.List.{List, [], ◌∷◌, ◌++◌, reverse}
use native.Mathlib.Omega.{arith}
use estatemate_minmoe.Prelude.Tests.{leb, ◌==◌, if◌then◌else◌}
use estatemate_minmoe.Prelude.Lists.{length, drop}

abbrev pub Text : Type 0
Text = List ℕ

-- A literal of the source; every literal used is ASCII.
abbrev pub lit : String → Text
lit String.[] = []
lit (String.◌∷◌ c s) = code c ∷ lit s

-- `a === b` on strings
unfoldable pub eqt : Text → Text → Bool
eqt [] [] = true
eqt (x ∷ a) (y ∷ b) = x == y && eqt a b
eqt _ _ = false

pub eqt_iff : (a b : Text) → (eqt a b ≡ true) ↔ (a ≡ b)
unfolding eqt
eqt_iff (x ∷ a) (y ∷ b) = ground (arith, eqt_iff a b)
eqt_iff _ _ = ground arith

-- `xs.includes(s)` on an array of strings
abbrev pub includes : List Text → Text → Bool
includes [] s = false
includes (x ∷ xs) s = eqt x s || includes xs s

-- WhiteSpace and LineTerminator of ECMAScript, which `trim` removes and `\s` matches
unfoldable pub is_space : ℕ → Bool
is_space c =
    leb 9 c && leb c 13
    || c == 32
    || c == 160
    || c == 0x1680
    || leb 0x2000 c && leb c 0x200a
    || c == 0x2028
    || c == 0x2029
    || c == 0x202f
    || c == 0x205f
    || c == 0x3000
    || c == 0xfeff

unfoldable pub trim_start : Text → Text
trim_start [] = []
trim_start (c ∷ s) = if is_space c then trim_start s else c ∷ s

unfoldable pub trim : Text → Text
unfolding trim_start
trim s = reverse (trim_start (reverse (trim_start s)))

-- `\d`
unfoldable pub is_digit : ℕ → Bool
is_digit c = leb b'0' c && leb c b'9'

-- `[A-Za-z0-9]`
unfoldable pub is_alnum : ℕ → Bool
unfolding is_digit
is_alnum c = is_digit c || leb b'A' c && leb c b'Z' || leb b'a' c && leb c b'z'

-- `toLowerCase` up to equality with ASCII text: the letters A to Z, the Kelvin sign and the dotted
-- capital I, which are the code units whose lower case has an ASCII unit. Others are kept.
unfoldable pub lower_unit : ℕ → Text
lower_unit c =
    if leb b'A' c && leb c b'Z'
    then (c + 32) ∷ []
    else if c == 0x212a
    then b'k' ∷ []
    else if c == 0x130
    then b'i' ∷ 0x307 ∷ []
    else c ∷ []

unfoldable pub to_lower : Text → Text
unfolding lower_unit
to_lower [] = []
to_lower (c ∷ s) = lower_unit c ++ to_lower s

-- `replaceAll(c, '')` for one code unit
unfoldable pub remove_all : ℕ → Text → Text
remove_all c [] = []
remove_all c (d ∷ s) = let rest = remove_all c s in if d == c then rest else d ∷ rest

-- `slice(-n)` for n > 0
abbrev pub slice_last : ℕ → Text → Text
slice_last n s = drop (length s - n) s

-- `Number(s)` of a text of decimal digits
unfoldable pub number_from : ℕ → Text → ℕ
number_from acc [] = acc
number_from acc (c ∷ s) = number_from (acc * 10 + (c - b'0')) s

abbrev pub number : Text → ℕ
number s = number_from 0 s
