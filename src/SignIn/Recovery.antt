-- ===== src/SignIn/Recovery.antt =====
-- The handlers of `POST /api/auth/forgot-password` and `POST /api/auth/reset-password` of src/index.ts,
-- over the tables of SignIn/Resets and SignIn/Attempts.
pub mod Differing
pub mod Guesses
pub mod Bounded
use estatemate_minmoe.Prelude.{
  ℕ, ◌+◌, ◌-◌, ◌*◌, ◌/◌, Bool, true, false, not, ◌&&◌, ◌||◌, Option, none, some, List, [], ◌∷◌,
  ◌++◌, ◌==◌, leb, ltb, if◌then◌else◌, length, any, update, first, value_or, newest,
}
use estatemate_minmoe.Prelude.Text.{Text, lit, eqt}
use estatemate_minmoe.Hardware.{Key}
use estatemate_minmoe.SignIn.Values.{
  PasswordProblem, normalize_email, looks_like_email, normalize_reset_code, format_reset_code,
  password_problem, read_self_service_enabled, read_reset_code_minutes, reset_code_length,
  reset_code_max_attempts, forgot_password_throttle,
}
use estatemate_minmoe.SignIn.Attempts.{AttemptKind, Attempt, throttle_exceeded, record_auth_attempt}
use estatemate_minmoe.SignIn.Login.{User, nocase, has_lapsed}
use estatemate_minmoe.SignIn.Resets.{
  ResetStatus, Delivery, office, self_service, same_delivery, is_open, ResetRequest, is_pending_of,
  Drawn, RecordedReset, record_reset_request, reset_code_hash, superseded,
}

pub record Db : Type 0 where
  pub users : List User
  pub attempts : List Attempt
  pub requests : List ResetRequest
  pub self_service_setting : Option Text
  pub code_minutes_setting : Option Text

-- The sentence of an answer; the first two are for an address without an account.
pub data Wording : Type 0 where
  code_if_account office_if_account enter_code quote_reference : Wording

pub record Queued : Type 0 where
  pub reference : Text
  pub delivery : Delivery
  pub code_minutes : ℕ
  pub code : Option Text
  pub expires_at : Option ℕ
  pub wording : Wording

pub data ForgotAnswer : Type 0 where
  validation failed : ForgotAnswer
  too_many_attempts : ℕ → ForgotAnswer
  queued : Queued → ForgotAnswer

abbrev pub shown_code : Option Text → Option Text
shown_code none = none
shown_code (some code) = some (format_reset_code code)

abbrev pub wording_for : Option Text → Wording
wording_for none = quote_reference
wording_for (some code) = enter_code

abbrev pub unknown_wording : Delivery → Wording
unknown_wording self_service = code_if_account
unknown_wording office = office_if_account

module _ (db : Db) (minutes : ℕ) where
  abbrev pub answer_recorded : Option (RecordedReset × List ResetRequest) → ForgotAnswer × Db
  answer_recorded none = (failed, db)
  answer_recorded (some (r, requests)) = (
    queued (record {
      reference = r.reference;
      delivery = r.delivery;
      code_minutes = minutes;
      code = shown_code r.code;
      expires_at = r.expires_at;
      wording = wording_for r.code;
    }),
    record db { requests = requests },
  )

-- From the look-up of the account on.
unfoldable pub forgot_for :
    (Text → Text) → ℕ → Drawn → Text → Text → Delivery → ℕ → Db → Option User → ForgotAnswer × Db
forgot_for sha256 now drawn made_up email delivery minutes db none = (
  queued (record {
    reference = made_up;
    delivery = delivery;
    code_minutes = minutes;
    code = none;
    expires_at = none;
    wording = unknown_wording delivery;
  }),
  db,
)
forgot_for sha256 now drawn made_up email delivery minutes db (some u) =
    answer_recorded db minutes
      (record_reset_request sha256 now drawn u.id email delivery minutes db.requests)

abbrev pub delivery_of : Db → Delivery
delivery_of db = if read_self_service_enabled db.self_service_setting then self_service else office

unfoldable pub forgot_unless :
    (Text → Text) → ℕ → Drawn → Text → Text → Text → Db → Option ℕ → ForgotAnswer × Db
forgot_unless sha256 now drawn made_up source email db (some seconds) =
    (too_many_attempts seconds, db)
forgot_unless sha256 now drawn made_up source email db none =
    forgot_for sha256 now drawn made_up email (delivery_of db)
      (read_reset_code_minutes db.code_minutes_setting 30)
      (record db {
        attempts =
            record_auth_attempt AttemptKind.forgot_password email source false now db.attempts;
      })
      (first (λ u. eqt (nocase u.email) (nocase email)) db.users)

-- The handler; `made_up` is the reference drawn for an address without an account.
unfoldable pub handle_forgot_password :
    (Text → Text) → ℕ → Drawn → Text → Text → Option Text → Db → ForgotAnswer × Db
handle_forgot_password sha256 now drawn made_up source value db =
    let email = normalize_email value in
    if not (looks_like_email email)
    then (validation, db)
    else forgot_unless sha256 now drawn made_up source email db (
        throttle_exceeded AttemptKind.forgot_password email source forgot_password_throttle now
          db.attempts)

pub record ResetBody : Type 0 where
  pub email : Option Text
  pub code : Option Text
  pub new_password : Option Text

pub data ResetAnswer : Type 0 where
  bad_email bad_code_length no_such_code code_expired too_many_wrong changed : ResetAnswer
  weak_password : PasswordProblem → ResetAnswer
  wrong_code : ℕ → ResetAnswer

abbrev pub is_active_user : Key → User → Bool
is_active_user user u = u.id == user && eqt u.status (lit "active")

abbrev pub has_code : ResetRequest → Bool
has_code r = elim r.code_hash [ none ↦ false | some h ↦ true ]

-- The row that a code is checked against.
abbrev pub is_redeemable : Text → List User → ResetRequest → Bool
is_redeemable email users r =
    eqt (nocase r.email) (nocase email)
    && same_delivery r.delivery self_service
    && is_open r.status
    && has_code r
    && any (is_active_user r.user_id) users

abbrev pub closed : ResetStatus → ResetRequest → ResetRequest
closed status r = record r { status = status; code_hash = none }

-- A wrong guess: the last one closes the request.
abbrev pub guessed : ResetRequest → ResetRequest
guessed r =
    let attempts = r.code_attempts + 1 in
    if ltb 0 (reset_code_max_attempts - attempts)
    then record r { code_attempts = attempts }
    else record (closed ResetStatus.expired r) { code_attempts = attempts }

-- `setPassword` and `closePendingResets`
abbrev pub completed_for : (Text → Text) → Key → Text → Db → Db
completed_for hash_password user password db = record db {
  users =
      update (λ u. u.id == user) (λ u. record u { password_hash = hash_password password })
        db.users;
  requests = update (is_pending_of user) (closed ResetStatus.completed) db.requests;
}

abbrev pub holds_hash : Option Text → Text → Bool
holds_hash none h = false
holds_hash (some stored) h = eqt stored h

unfoldable pub redeem :
    (Text → Text) → (Text → Text) → ℕ → Text → Text → Db → Option ResetRequest → ResetAnswer × Db
redeem sha256 hash_password now code password db none = (no_such_code, db)
redeem sha256 hash_password now code password db (some r) =
    if has_lapsed r.code_expires_at now
    then (
      code_expired,
      record db { requests = update (λ q. q.id == r.id) (closed ResetStatus.expired) db.requests },
    )
    else if leb reset_code_max_attempts r.code_attempts
    then (
      too_many_wrong,
      record db { requests = update (λ q. q.id == r.id) (closed ResetStatus.expired) db.requests },
    )
    else if not (holds_hash r.code_hash (reset_code_hash sha256 code))
    then (
      wrong_code (reset_code_max_attempts - (r.code_attempts + 1)),
      record db { requests = update (λ q. q.id == r.id) guessed db.requests },
    )
    else (changed, completed_for hash_password r.user_id password db)

unfoldable pub handle_reset_password :
    (Text → Text) → (Text → Text) → ℕ → ResetBody → Db → ResetAnswer × Db
handle_reset_password sha256 hash_password now body db =
    let email = normalize_email body.email in
    let code = normalize_reset_code body.code in
    if not (looks_like_email email)
    then (bad_email, db)
    else if not (length code == reset_code_length)
    then (bad_code_length, db)
    else elim (password_problem body.new_password email) [
      | some problem ↦ (weak_password problem, db)
      | none ↦
          redeem sha256 hash_password now code (value_or body.new_password []) db
            (newest (is_redeemable email db.users) ResetRequest.last_requested_at db.requests)
    ]
