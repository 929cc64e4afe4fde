-- ===== src/SignIn/Values/Codes.antt =====
-- How src/sign-in.ts shows and reads a reset code, and the bounds of its settings and passwords.
use mathlib.Core.List.{append_assoc}
use estatemate_minmoe.Prelude.{
  ℕ, zero, suc, ◌≤◌, Bool, true, ◌&&◌, ◌||◌, Option, none, some, List, [], ◌∷◌, ◌++◌, ◌==◌, leb,
  length, take, drop, all, ◌≡◌, refl, sym, ap, ◌∙◌, inl, inr, arith, Bool-cases, all-append,
  all-take, all-drop,
}
use estatemate_minmoe.Prelude.Text.{Text, is_digit, trim}
use estatemate_minmoe.SignIn.Values.{
  upper_alnum, upper_alnums, normalize_reset_code, format_reset_code, reset_code_length,
  read_reset_code_minutes, password_problem,
}

-- `[0-9A-Z]`
abbrev is_code_unit : ℕ → Bool
is_code_unit c = is_digit c || leb b'A' c && leb c b'Z'

code_upper_alnum : (c : ℕ) → all is_code_unit (upper_alnum c) ≡ true
unfolding upper_alnum is_digit
code_upper_alnum c = ground arith

code_upper_alnums : (s : Text) → all is_code_unit (upper_alnums s) ≡ true
unfolding upper_alnums
code_upper_alnums [] = refl
code_upper_alnums (c ∷ s) =
    all-append is_code_unit (upper_alnum c) (upper_alnums s) (code_upper_alnum c)
      (code_upper_alnums s)

upper_alnums_code : (s : Text) → all is_code_unit s ≡ true → upper_alnums s ≡ s
unfolding upper_alnums upper_alnum
upper_alnums_code [] h = refl
upper_alnums_code (c ∷ s) h = ground (arith, upper_alnums_code s)

upper_alnums-append : (s t : Text) → upper_alnums (s ++ t) ≡ upper_alnums s ++ upper_alnums t
unfolding upper_alnums
upper_alnums-append [] t = refl
upper_alnums-append (c ∷ s) t =
    ap (λ u. upper_alnum c ++ u) (upper_alnums-append s t)
    ∙ sym (append_assoc (upper_alnum c) (upper_alnums s) (upper_alnums t))

take-drop-append {ℓ} : {A : Type ℓ} (n : ℕ) (xs : List A) → take n xs ++ drop n xs ≡ xs
take-drop-append zero xs = refl
take-drop-append (suc n) [] = refl
take-drop-append (suc n) (x ∷ xs) = ap (λ ys. x ∷ ys) (take-drop-append n xs)

read_shown : (s : Text) → all is_code_unit s ≡ true → upper_alnums (take 4 s ++ b'-' ∷ drop 4 s) ≡ s
unfolding upper_alnums upper_alnum is_digit
read_shown s h =
    upper_alnums-append (take 4 s) (b'-' ∷ drop 4 s)
    ∙ rw
        (
          upper_alnums_code (take 4 s) (all-take is_code_unit 4 s h),
          upper_alnums_code (drop 4 s) (all-drop is_code_unit 4 s h),
        )
        (take-drop-append 4 s)

-- Whatever was typed, reading the code as it is shown gives the code that reading it directly gives:
-- the dash and the lower case of a copied code do no harm.
pub normalize_reset_code-format_reset_code :
    (code : Text)
    → normalize_reset_code (some (format_reset_code code)) ≡ normalize_reset_code (some code)
unfolding normalize_reset_code format_reset_code
normalize_reset_code-format_reset_code code =
    elim (Bool-cases (length (upper_alnums code) == reset_code_length)) [
      | inl whole ↦ rw whole (read_shown (upper_alnums code) (code_upper_alnums code))
      | inr other ↦ rw other (upper_alnums_code (upper_alnums code) (code_upper_alnums code))
    ]

-- The lifetime of a code read from the settings is between 5 and 120 minutes, when the default is.
pub read_reset_code_minutes_bounds :
    (value : Option Text) (fallback : ℕ)
    → 5 ≤ fallback
    → fallback ≤ 120
    → (5 ≤ read_reset_code_minutes value fallback) × (read_reset_code_minutes value fallback ≤ 120)
unfolding read_reset_code_minutes
read_reset_code_minutes_bounds value fallback lo hi = ground arith

-- A password that is accepted has 12 to 200 characters, not all of them spaces.
pub password_problem_bounds :
    (password email : Text)
    → password_problem (some password) email ≡ none
    → (12 ≤ length password) × (length password ≤ 200) × (1 ≤ length (trim password))
unfolding password_problem
password_problem_bounds password email h = ground arith
