-- ===== src/Prelude/Json.antt =====
-- `JSON.stringify` on the payloads that the code builds: objects of texts, numbers, booleans, null.
use mathlib.Core.List.{List, [], ◌∷◌, ◌++◌}
use mathlib.Core.Bool.{Bool, true, false, not, ◌&&◌, ◌||◌}
use Prim.Native.Nat.{ℕ, zero, suc, ◌+◌, ◌-◌, ◌/◌, ◌%◌}
use mathlib.Core.Path.{◌≡◌, refl}
use estatemate_minmoe.Prelude.Tests.{ltb, leb, ◌==◌, if◌then◌else◌}
use estatemate_minmoe.Prelude.Text.{Text, lit}

pub data Json : Type 0 where
  null : Json
  bool : Bool → Json
  num : ℕ → Json
  str : Text → Json

-- Decimal digits, with fuel for one digit each; a number has at most that many digits.
pub decimal_from : ℕ → ℕ → Text → Text
decimal_from zero n out = out
decimal_from (suc fuel) n out =
    let rest = decimal_from fuel (n / 10) ((b'0' + n % 10) ∷ out) in
    if ltb n 10 then (b'0' + n) ∷ out else rest

unfoldable pub decimal : ℕ → Text
unfolding decimal_from
decimal n = decimal_from (n + 1) n []

abbrev hex_digit : ℕ → ℕ
hex_digit d = if ltb d 10 then b'0' + d else b'a' + d - 10

abbrev escaped_unit : ℕ → Text
escaped_unit c =
    b'\\'
    ∷ b'u'
    ∷ hex_digit (c / 4096)
    ∷ hex_digit (c / 256 % 16)
    ∷ hex_digit (c / 16 % 16)
    ∷ hex_digit (c % 16)
    ∷ []

abbrev is_high : ℕ → Bool
is_high c = leb 0xd800 c && leb c 0xdbff

abbrev is_low : ℕ → Bool
is_low c = leb 0xdc00 c && leb c 0xdfff

abbrev starts_low : Text → Bool
starts_low [] = false
starts_low (c ∷ s) = is_low c

abbrev json_unit : ℕ → Bool → Bool → Text
json_unit c paired before_low =
    if c == b'"'
    then b'\\' ∷ b'"' ∷ []
    else if c == b'\\'
    then b'\\' ∷ b'\\' ∷ []
    else if c == 8
    then b'\\' ∷ b'b' ∷ []
    else if c == 9
    then b'\\' ∷ b't' ∷ []
    else if c == 10
    then b'\\' ∷ b'n' ∷ []
    else if c == 12
    then b'\\' ∷ b'f' ∷ []
    else if c == 13
    then b'\\' ∷ b'r' ∷ []
    else if ltb c 32 || is_high c && not before_low || is_low c && not paired
    then escaped_unit c
    else c ∷ []

-- `paired` says that the unit before is a high surrogate, which a low one may follow.
json_units : Bool → Text → Text
json_units paired [] = []
json_units paired (c ∷ s) = json_unit c paired (starts_low s) ++ json_units (is_high c) s

stringify_value : Json → Text
unfolding json_units decimal
stringify_value null = lit "null"
stringify_value (bool true) = lit "true"
stringify_value (bool false) = lit "false"
stringify_value (num n) = decimal n
stringify_value (str s) = b'"' ∷ (json_units false s ++ b'"' ∷ [])

stringify_fields : List (Text × Json) → Text
unfolding stringify_value
stringify_fields [] = []
stringify_fields ((k, v) ∷ []) = stringify_value (str k) ++ b':' ∷ stringify_value v
stringify_fields ((k, v) ∷ f ∷ fs) =
    stringify_value (str k) ++ b':' ∷ (stringify_value v ++ b',' ∷ stringify_fields (f ∷ fs))

unfoldable pub stringify : List (Text × Json) → Text
unfolding stringify_fields
stringify fields = b'{' ∷ (stringify_fields fields ++ b'}' ∷ [])

stringify_runs :
    stringify ((lit "n", num 120) ∷ (lit "s", str (lit "a\"b\n")) ∷ (lit "b", bool true) ∷ [])
    ≡ lit "{\"n\":120,\"s\":\"a\\\"b\\n\",\"b\":true}"
unfolding stringify
stringify_runs = refl
