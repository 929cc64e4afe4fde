-- ===== src/SignIn/Tests.antt =====
-- The theorems on signing in and recovering a password at concrete accounts.
use estatemate_minmoe.Prelude.{
  ◌⊎◌, ◌≤◌, true, false, none, some, List, [], ◌∷◌, count, is_some, ◌≡◌, refl, arith, newest,
}
use estatemate_minmoe.Prelude.Text.{Text, lit, eqt, trim, is_space, is_digit, to_lower}
use estatemate_minmoe.SignIn.Values.{
  Flag, normalize_email, normalize_reset_code, format_reset_code, read_reset_code_minutes,
  password_problem, looks_like_email, upper_alnum, upper_alnums, read_self_service_enabled,
}
use estatemate_minmoe.SignIn.Values.Codes.{
  normalize_reset_code-format_reset_code, read_reset_code_minutes_bounds,
}
use estatemate_minmoe.SignIn.Attempts.{Attempt, throttle_exceeded}
use estatemate_minmoe.SignIn.Login.{User, resident, Gates, LoginRequest, verified, handle_login}
use estatemate_minmoe.SignIn.Login.Throttled.{WithinLimits}
use estatemate_minmoe.SignIn.Login.Reached.{
  started, requested, Reachable-WithinLimits, same-handle_login,
}
use estatemate_minmoe.SignIn.Resets.{
  ResetRequest, office, self_service, Drawn, RecordedReset, is_pending_of, new_reset_reference,
  open_reset, reuse_or_open, record_reset_request, reset_row, asked_for,
}
use estatemate_minmoe.SignIn.Resets.Pending.{record_reset_request-single}
use estatemate_minmoe.SignIn.Recovery.{
  Db, Queued, quote_reference, ResetBody, redeem, forgot_for, forgot_unless, handle_forgot_password,
  handle_reset_password,
}
use estatemate_minmoe.SignIn.Recovery.Differing.{
  tells_account, owner_of, telling-handle_forgot_password,
}
use estatemate_minmoe.SignIn.Recovery.Guesses.{
  candidate, Unchanged, Redeemed, changed-handle_reset_password,
}
use estatemate_minmoe.SignIn.Recovery.Bounded.{is_wrong_at, wrong_guesses, wrong_guesses_bound}

abbrev ada : User
ada = record {
  id = 4;
  email = lit "ada@e.ng";
  role = resident;
  password_hash = lit "h1";
  status = lit "active";
  account_expires_at = none;
}

abbrev no_gates : Gates
no_gates = record { assignments = []; devices = [] }

abbrev guess : LoginRequest
guess = record {
  email = some (lit " Ada@e.ng");
  password = some (lit "letmein");
  remember_me = Flag.other;
}

abbrev same_text : Text → Text
same_text s = s

-- The table after one wrong guess.
abbrev one_failure : List Attempt
one_failure = (handle_login eqt 90000 (lit "src") no_gates (ada ∷ []) guess []).1

Reachable-WithinLimits_example : WithinLimits 90000 one_failure
Reachable-WithinLimits_example =
    Reachable-WithinLimits 90000 one_failure
      (requested eqt 90000 (lit "src") no_gates (ada ∷ []) guess [] (started 90000))

same-handle_login_example :
    handle_login eqt 90000 (lit "src") no_gates (ada ∷ []) guess []
    ≡ handle_login eqt 90000 (lit "src") no_gates [] guess []
unfolding verified eqt normalize_email to_lower trim is_space
same-handle_login_example =
    same-handle_login eqt 90000 (lit "src") no_gates no_gates (ada ∷ []) [] guess [] refl refl

abbrev drawn : Drawn
drawn = record { id = 31; code = lit "7K2M9Q4T"; references = λ n. lit "PR-7K2M9Q" }

-- The row that Ada's request for a code leaves.
abbrev ada_row : ResetRequest
ada_row =
    reset_row 90000 31 (lit "PR-7K2M9Q")
      (asked_for same_text 90000 (lit "7K2M9Q4T") 4 (lit "ada@e.ng") self_service 30)

abbrev ada_recorded : RecordedReset
ada_recorded = record {
  reference = lit "PR-7K2M9Q";
  delivery = self_service;
  code = some (lit "7K2M9Q4T");
  expires_at = some 1890;
  reused = false;
}

record_reset_request-single_example : count (is_pending_of 4) (ada_row ∷ []) ≡ 1
unfolding record_reset_request reuse_or_open open_reset new_reset_reference newest
record_reset_request-single_example =
    record_reset_request-single same_text 90000 drawn 4 (lit "ada@e.ng") self_service 30 []
      ada_recorded (ada_row ∷ []) (omega arith) refl

abbrev office_db : Db
office_db = record {
  users = ada ∷ [];
  attempts = [];
  requests = [];
  self_service_setting = none;
  code_minutes_setting = none;
}

abbrev office_answer : Queued
office_answer = record {
  reference = lit "PR-7K2M9Q";
  delivery = office;
  code_minutes = 30;
  code = none;
  expires_at = none;
  wording = quote_reference;
}

telling-handle_forgot_password_example :
    tells_account quote_reference ≡ is_some (owner_of (some (lit "ada@e.ng")) office_db)
unfolding handle_forgot_password forgot_unless forgot_for looks_like_email normalize_email to_lower
    trim is_space throttle_exceeded eqt record_reset_request reuse_or_open newest open_reset
    new_reset_reference read_self_service_enabled read_reset_code_minutes
telling-handle_forgot_password_example =
    telling-handle_forgot_password same_text 90000 drawn (lit "PR-AAAAAA") (lit "src")
      (some (lit "ada@e.ng")) office_db office_answer refl

abbrev code_db : Db
code_db = record office_db { requests = ada_row ∷ [] }

abbrev reset_body : Text → ResetBody
reset_body code = record {
  email = some (lit "ada@e.ng");
  code = some code;
  new_password = some (lit "correct horse battery");
}

-- A wrong guess, and the right code after it.
wrong_guesses_bound_example :
    wrong_guesses same_text same_text ada_row.id
      ((100000, reset_body (lit "AAAA-AAAA")) ∷ (100010, reset_body (lit "7k2m-9q4t")) ∷ [])
      code_db
    ≤ 5
wrong_guesses_bound_example =
    wrong_guesses_bound same_text same_text ada_row.id
      ((100000, reset_body (lit "AAAA-AAAA")) ∷ (100010, reset_body (lit "7k2m-9q4t")) ∷ []) code_db
      (omega arith)

wrong_guess :
    is_wrong_at same_text same_text ada_row.id 100000 (reset_body (lit "AAAA-AAAA")) code_db ≡ true
unfolding handle_reset_password redeem newest looks_like_email normalize_email to_lower trim
    is_space normalize_reset_code upper_alnums upper_alnum is_digit password_problem eqt
wrong_guess = refl

changed-handle_reset_password_example :
    Unchanged same_text same_text 100000 code_db
      (handle_reset_password same_text same_text 100000 (reset_body (lit "7k2m-9q4t")) code_db)
    ⊎ Redeemed same_text same_text 100000
        (normalize_reset_code (some (lit "7k2m-9q4t")))
        (lit "correct horse battery")
        code_db
        (candidate same_text same_text 100000 (reset_body (lit "7k2m-9q4t")) code_db)
        (handle_reset_password same_text same_text 100000 (reset_body (lit "7k2m-9q4t")) code_db)
changed-handle_reset_password_example =
    changed-handle_reset_password same_text same_text 100000 (reset_body (lit "7k2m-9q4t")) code_db

normalize_reset_code-format_reset_code_example :
    normalize_reset_code (some (format_reset_code (lit "7k2m9q4t")))
    ≡ normalize_reset_code (some (lit "7k2m9q4t"))
normalize_reset_code-format_reset_code_example =
    normalize_reset_code-format_reset_code (lit "7k2m9q4t")

read_reset_code_minutes_bounds_example :
    (5 ≤ read_reset_code_minutes (some (lit "500")) 30)
    × (read_reset_code_minutes (some (lit "500")) 30 ≤ 120)
read_reset_code_minutes_bounds_example =
    read_reset_code_minutes_bounds (some (lit "500")) 30 (omega arith) (omega arith)
