-- ===== src/Csv/Money.antt =====
-- `moneyToMinor` of src/csv.ts. Its sums are exact: a value whose float arithmetic would round is
-- at least 2 ^ 53, and is refused either way.
use estatemate_minmoe.Prelude.{
  ℕ, ◌+◌, ◌-◌, ◌*◌, ◌^◌, ◌<◌, Bool, not, ◌&&◌, ◌||◌, [], ◌∷◌, ◌++◌, ◌==◌, leb, ltb, if◌then◌else◌,
  length, all, replicate, ◌≡◌, arith,
}
use estatemate_minmoe.Prelude.Text.{Text, is_space, is_digit, number}
use estatemate_minmoe.Csv.{Result, ok, thrown, invalid_amount, amount_not_positive}

-- `value.replace(/[₦,\s]/g, '')`
pub strip_separators : Text → Text
strip_separators [] = []
strip_separators (c ∷ s) =
    let rest = strip_separators s in
    if c == 0x20a6 || c == b',' || is_space c then rest else c ∷ rest

-- `normalized.split('.')`, for a text that the pattern accepts: before and after the first point.
pub split_point : Text → Text × Text
split_point [] = ([], [])
split_point (c ∷ s) =
    let (whole, fraction) = split_point s in if c == b'.' then ([], s) else (c ∷ whole, fraction)

-- `/^\d+(\.\d{1,2})?$/`
pub is_amount : Text → Bool
is_amount s =
    let (whole, fraction) = split_point s in
    leb 1 (length whole)
    && all is_digit whole
    && all is_digit fraction
    && leb (length fraction) 2
    && (all is_digit s || leb 1 (length fraction))

-- `fraction.padEnd(2, '0')`
pub pad_end_2 : Text → Text
pad_end_2 fraction = fraction ++ replicate (2 - length fraction) b'0'

abbrev pub max_safe : ℕ
max_safe = 2 ^ 53 - 1

unfoldable pub money_to_minor : Text → Result ℕ
unfolding strip_separators split_point is_amount pad_end_2
money_to_minor value =
    let normalized = strip_separators value in
    let (whole, fraction) = split_point normalized in
    let minor = number whole * 100 + number (pad_end_2 fraction) in
    if not (is_amount normalized)
    then thrown (invalid_amount value)
    else if ltb max_safe minor || leb minor 0
    then thrown (amount_not_positive value)
    else ok minor

-- An accepted amount is a whole number of minor units between 1 and 2 ^ 53 - 1.
pub money_to_minor_bounds :
    (value : Text) (minor : ℕ) → money_to_minor value ≡ ok minor → (0 < minor) × (minor < 2 ^ 53)
unfolding money_to_minor
money_to_minor_bounds value minor h = ground arith
