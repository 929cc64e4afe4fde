-- ===== src/SignIn/Values.antt =====
-- The values of src/sign-in.ts. An `unknown` that is not a string is `none`; times are milliseconds.
pub mod Codes
use estatemate_minmoe.Prelude.{
  ℕ, ◌+◌, ◌-◌, ◌*◌, ◌/◌, Bool, true, false, not, ◌&&◌, ◌||◌, Option, none, some, List, [], ◌∷◌,
  ◌++◌, ◌==◌, leb, ltb, if◌then◌else◌, length, take, drop, all, any, value_or, oldest,
}
use estatemate_minmoe.Prelude.Text.{
  Text, lit, eqt, includes, is_space, trim, is_digit, to_lower, number,
}

abbrev pub session_seconds : ℕ
session_seconds = 43200

abbrev pub remember_me_seconds : ℕ
remember_me_seconds = 2592000

abbrev pub reset_code_length : ℕ
reset_code_length = 8

abbrev pub reset_code_max_attempts : ℕ
reset_code_max_attempts = 5

abbrev pub reset_request_reuse_hours : ℕ
reset_request_reuse_hours = 12

abbrev pub min_password_length : ℕ
min_password_length = 12

abbrev pub max_password_length : ℕ
max_password_length = 200

-- The value of a flag in a request.
pub data Flag : Type 0 where
  truth : Bool → Flag
  string : Text → Flag
  other : Flag

unfoldable pub read_boolean_flag : Flag → Bool
read_boolean_flag (truth b) = b
read_boolean_flag (string s) =
    includes (lit "true" ∷ lit "1" ∷ lit "on" ∷ lit "yes" ∷ []) (to_lower (trim s))
read_boolean_flag other = false

unfoldable pub session_seconds_for : Flag → ℕ
session_seconds_for remember_me =
    if read_boolean_flag remember_me then remember_me_seconds else session_seconds

unfoldable pub normalize_email : Option Text → Text
normalize_email none = []
normalize_email (some s) = to_lower (trim s)

-- `[^\s@]+\.[^\s@]+` on a text without spaces and `@`: a dot with something on both sides
dot_before_end : Text → Bool
dot_before_end [] = false
dot_before_end (c ∷ []) = false
dot_before_end (c ∷ d ∷ s) = c == b'.' || dot_before_end (d ∷ s)

abbrev is_domain : Text → Bool
is_domain s = all (λ c. not (is_space c || c == b'@')) s && dot_before_end (drop 1 s)

-- `started` when a character before the `@` has been read
local_then_domain : Bool → Text → Bool
unfolding dot_before_end
local_then_domain started [] = false
local_then_domain started (c ∷ s) =
    let rest = local_then_domain true s in
    if c == b'@' then started && is_domain s else if is_space c then false else rest

unfoldable pub looks_like_email : Text → Bool
unfolding local_then_domain
looks_like_email value = local_then_domain false value

-- The units `0` to `9` and `A` to `Z` of `toUpperCase` of one unit; a few letters outside ASCII give
-- such units too.
unfoldable pub upper_alnum : ℕ → Text
upper_alnum c =
    if is_digit c || leb b'A' c && leb c b'Z'
    then c ∷ []
    else if leb b'a' c && leb c b'z'
    then (c - 32) ∷ []
    else upper_other c
  where
    upper_other : ℕ → Text
    upper_other d =
        if d == 0xdf
        then lit "SS"
        else if d == 0x131
        then lit "I"
        else if d == 0x149
        then lit "N"
        else if d == 0x17f
        then lit "S"
        else if d == 0x1f0
        then lit "J"
        else if d == 0x1e96
        then lit "H"
        else if d == 0x1e97
        then lit "T"
        else if d == 0x1e98
        then lit "W"
        else if d == 0x1e99
        then lit "Y"
        else if d == 0x1e9a
        then lit "A"
        else if d == 0xfb00
        then lit "FF"
        else if d == 0xfb01
        then lit "FI"
        else if d == 0xfb02
        then lit "FL"
        else if d == 0xfb03
        then lit "FFI"
        else if d == 0xfb04
        then lit "FFL"
        else if d == 0xfb05 || d == 0xfb06
        then lit "ST"
        else []

unfoldable pub upper_alnums : Text → Text
upper_alnums [] = []
upper_alnums (c ∷ s) = upper_alnum c ++ upper_alnums s

unfoldable pub normalize_reset_code : Option Text → Text
normalize_reset_code none = []
normalize_reset_code (some s) = upper_alnums s

unfoldable pub format_reset_code : Text → Text
format_reset_code code =
    let normalized = normalize_reset_code (some code) in
    if not (length normalized == reset_code_length)
    then normalized
    else take 4 normalized ++ b'-' ∷ drop 4 normalized

-- The seconds until the oldest attempt leaves the window.
unfoldable pub retry_after_seconds : Option ℕ → ℕ → ℕ → ℕ
retry_after_seconds none window_minutes now = window_minutes * 60
retry_after_seconds (some oldest) window_minutes now =
    let frees_at = oldest + window_minutes * 60000 in
    if ltb now frees_at then (frees_at - now + 999) / 1000 else 0

unfoldable pub read_reset_code_minutes : Option Text → ℕ → ℕ
read_reset_code_minutes value fallback =
    let text = trim (value_or value []) in
    if not (leb 1 (length text) && leb (length text) 3 && all is_digit text)
    then fallback
    else if ltb (number text) 5 || ltb 120 (number text)
    then fallback
    else number text

unfoldable pub read_self_service_enabled : Option Text → Bool
read_self_service_enabled value = eqt (to_lower (trim (value_or value []))) (lit "true")

pub data PasswordProblem : Type 0 where
  only_spaces too_short too_long own_email : PasswordProblem

unfoldable pub password_problem : Option Text → Text → Option PasswordProblem
password_problem password email =
    let value = value_or password [] in
    if length (trim value) == 0
    then some only_spaces
    else if ltb (length value) min_password_length
    then some too_short
    else if ltb max_password_length (length value)
    then some too_long
    else if not (eqt email []) && eqt (to_lower value) (normalize_email (some email))
    then some own_email
    else none

-- `issuedAt * 1000 < changed - skewSeconds * 1000`, without the subtraction
unfoldable pub session_issued_before_password_change : Option ℕ → Option ℕ → ℕ → Bool
session_issued_before_password_change none issued_at skew_seconds = false
session_issued_before_password_change (some changed) none skew_seconds = false
session_issued_before_password_change (some changed) (some issued_at) skew_seconds =
    ltb (issued_at * 1000 + skew_seconds * 1000) changed

pub record ThrottleLimits : Type 0 where
  pub per_source : ℕ
  pub per_email : ℕ
  pub window_minutes : ℕ

abbrev pub login_throttle : ThrottleLimits
login_throttle = record { per_source = 8; per_email = 25; window_minutes = 15 }

abbrev pub forgot_password_throttle : ThrottleLimits
forgot_password_throttle = record { per_source = 3; per_email = 10; window_minutes = 15 }
