-- ===== src/SignIn/Resets.antt =====
-- The routes `POST /api/auth/forgot-password` and `POST /api/auth/reset-password` of src/index.ts. What
-- Web Crypto gives is a parameter: `sha256`, `hash_password`, and the random code and references, drawn
-- before a request. Times are milliseconds, those of the table seconds. The names of clients, the
-- office's notes and the audit log are left out.
pub mod Pending
use estatemate_minmoe.Prelude.{
  ℕ, zero, suc, ◌+◌, ◌-◌, ◌*◌, ◌/◌, Bool, true, false, not, ◌&&◌, ◌||◌, Option, none, some, List,
  [], ◌∷◌, ◌++◌, ◌==◌, leb, ltb, if◌then◌else◌, length, any, update, first, value_or, newest,
}
use estatemate_minmoe.Prelude.Text.{Text, lit, eqt}
use estatemate_minmoe.Hardware.{Key}
use estatemate_minmoe.SignIn.Values.{
  PasswordProblem, normalize_email, looks_like_email, normalize_reset_code, format_reset_code,
  password_problem, read_self_service_enabled, read_reset_code_minutes, reset_code_length,
  reset_code_max_attempts, reset_request_reuse_hours, forgot_password_throttle,
}
use estatemate_minmoe.SignIn.Attempts.{AttemptKind, Attempt, throttle_exceeded, record_auth_attempt}
use estatemate_minmoe.SignIn.Login.{User, nocase, has_lapsed}

pub data ResetStatus : Type 0 where
  pending issued completed dismissed expired : ResetStatus

pub data Delivery : Type 0 where
  office self_service : Delivery

abbrev pub is_open : ResetStatus → Bool
is_open ResetStatus.pending = true
is_open _ = false

abbrev pub same_delivery : Delivery → Delivery → Bool
same_delivery office office = true
same_delivery self_service self_service = true
same_delivery _ _ = false

-- A row of `password_reset_requests`.
pub record ResetRequest : Type 0 where
  pub id : Key
  pub user_id : Key
  pub email : Text
  pub reference : Text
  pub status : ResetStatus
  pub delivery : Delivery
  pub code_hash : Option Text
  pub code_expires_at : Option ℕ
  pub code_attempts : ℕ
  pub created_at : ℕ
  pub last_requested_at : ℕ

abbrev pub is_pending_of : Key → ResetRequest → Bool
is_pending_of user r = r.user_id == user && is_open r.status

-- What a request draws: an id, a code, and references one after the other.
pub record Drawn : Type 0 where
  pub id : Key
  pub code : Text
  pub references : ℕ → Text

-- `newResetReference`: ten tries; without a free one the route fails.
unfoldable pub new_reset_reference : ℕ → ℕ → (ℕ → Text) → List ResetRequest → Option Text
new_reset_reference zero attempt drawn requests = none
new_reset_reference (suc tries) attempt drawn requests =
    let later = new_reset_reference tries (attempt + 1) drawn requests in
    if any (λ r. eqt r.reference (drawn attempt)) requests then later else some (drawn attempt)

pub record RecordedReset : Type 0 where
  pub reference : Text
  pub delivery : Delivery
  pub code : Option Text
  pub expires_at : Option ℕ
  pub reused : Bool

-- What a row takes from the request that asks for it.
pub record Asked : Type 0 where
  pub user_id : Key
  pub email : Text
  pub delivery : Delivery
  pub code : Option Text
  pub code_hash : Option Text
  pub expires_at : Option ℕ

abbrev pub renewed : ℕ → Asked → ResetRequest → ResetRequest
renewed now asked r = record r {
  last_requested_at = now / 1000;
  code_hash = asked.code_hash;
  code_expires_at = asked.expires_at;
  code_attempts = 0;
}

abbrev pub superseded : ResetRequest → ResetRequest
superseded r = record r { status = ResetStatus.expired; code_hash = none }

abbrev pub reset_row : ℕ → Key → Text → Asked → ResetRequest
reset_row now id reference asked = record {
  id = id;
  user_id = asked.user_id;
  email = asked.email;
  reference = reference;
  status = ResetStatus.pending;
  delivery = asked.delivery;
  code_hash = asked.code_hash;
  code_expires_at = asked.expires_at;
  code_attempts = 0;
  created_at = now / 1000;
  last_requested_at = now / 1000;
}

-- `created_at >= now - 12 hours`
abbrev pub is_reusable : ℕ → Asked → ResetRequest → Bool
is_reusable now asked r =
    same_delivery r.delivery asked.delivery
    && leb now (r.created_at * 1000 + reset_request_reuse_hours * 3600000)

-- A new request, which supersedes those that were pending.
unfoldable pub open_reset :
    ℕ → Key → Asked → Option Text → List ResetRequest → Option (RecordedReset × List ResetRequest)
open_reset now id asked none requests = none
open_reset now id asked (some reference) requests = some (
  record {
    reference = reference;
    delivery = asked.delivery;
    code = asked.code;
    expires_at = asked.expires_at;
    reused = false;
  },
  update (is_pending_of asked.user_id) superseded requests ++ reset_row now id reference asked ∷ [],
)

unfoldable pub reuse_or_open :
    ℕ
    → Drawn
    → Asked
    → Option ResetRequest
    → List ResetRequest
    → Option (RecordedReset × List ResetRequest)
reuse_or_open now drawn asked none requests =
    open_reset now drawn.id asked (new_reset_reference 10 0 drawn.references requests) requests
reuse_or_open now drawn asked (some r) requests =
    if is_reusable now asked r
    then some (
      record {
        reference = r.reference;
        delivery = r.delivery;
        code = asked.code;
        expires_at = asked.expires_at;
        reused = true;
      },
      update (λ q. q.id == r.id) (renewed now asked) requests,
    )
    else open_reset now drawn.id asked (new_reset_reference 10 0 drawn.references requests) requests

-- `resetCodeHash`
abbrev pub reset_code_hash : (Text → Text) → Text → Text
reset_code_hash sha256 code = sha256 (lit "reset-code|" ++ normalize_reset_code (some code))

abbrev pub asked_for : (Text → Text) → ℕ → Text → Key → Text → Delivery → ℕ → Asked
asked_for sha256 now code user email office _ = record {
  user_id = user;
  email = email;
  delivery = office;
  code = none;
  code_hash = none;
  expires_at = none;
}
asked_for sha256 now code user email self_service minutes = record {
  user_id = user;
  email = email;
  delivery = self_service;
  code = some code;
  code_hash = some (reset_code_hash sha256 code);
  expires_at = some ((now + minutes * 60000) / 1000);
}

-- `recordResetRequest`
unfoldable pub record_reset_request :
    (Text → Text)
    → ℕ
    → Drawn
    → Key
    → Text
    → Delivery
    → ℕ
    → List ResetRequest
    → Option (RecordedReset × List ResetRequest)
record_reset_request sha256 now drawn user email delivery minutes requests =
    reuse_or_open now drawn (asked_for sha256 now drawn.code user email delivery minutes)
      (newest (is_pending_of user) ResetRequest.last_requested_at requests) requests
