-- ===== src/SignIn/Login.antt =====
-- The route `POST /api/auth/login` of src/index.ts. What `verifyPassword` answers (src/security.ts, by
-- Web Crypto) is the parameter `verify`; the token signed for the session is left out.
pub mod Throttled
pub mod Reached
use estatemate_minmoe.Prelude.{
  ℕ, ◌+◌, ◌*◌, ◌/◌, Bool, true, false, not, ◌&&◌, ◌||◌, Option, none, some, List, [], ◌∷◌, ◌==◌,
  leb, if◌then◌else◌, length, any, select, first, value_or,
}
use estatemate_minmoe.Prelude.Text.{Text, lit, eqt}
use estatemate_minmoe.Hardware.{Key, Device, is_enabled}
use estatemate_minmoe.SignIn.Values.{
  Flag, normalize_email, session_seconds_for, read_boolean_flag, login_throttle,
}
use estatemate_minmoe.SignIn.Attempts.{
  AttemptKind, Attempt, throttle_exceeded, record_auth_attempt, clear_auth_attempts,
}

pub data Role : Type 0 where
  admin manager security resident : Role

abbrev pub is_security : Role → Bool
is_security security = true
is_security _ = false

-- A row of `users`; `role` is the one that the query gives.
pub record User : Type 0 where
  pub id : Key
  pub email : Text
  pub role : Role
  pub password_hash : Text
  pub status : Text
  pub account_expires_at : Option ℕ

-- A row of `security_gate_assignments`.
pub record GateAssignment : Type 0 where
  pub security_user_id : Key
  pub device_id : Key
  pub active : Bool

pub record Gates : Type 0 where
  pub assignments : List GateAssignment
  pub devices : List Device

-- `assignedGates`, in the order of the devices.
unfoldable pub assigned_gates : Gates → Key → List Device
assigned_gates gates user =
    select
      (λ d.
        any (λ a. a.security_user_id == user && a.device_id == d.id && a.active) gates.assignments
        && is_enabled d)
      gates.devices

unfoldable pub selectable_gates : Gates → Key → List Device
selectable_gates gates user =
    let assigned = assigned_gates gates user in
    if leb 1 (length assigned) then assigned else select is_enabled gates.devices

-- `COLLATE NOCASE` folds the letters of ASCII only.
abbrev pub nocase : Text → Text
nocase [] = []
nocase (c ∷ s) = (if leb b'A' c && leb c b'Z' then c + 32 else c) ∷ nocase s

pub record LoginRequest : Type 0 where
  pub email : Option Text
  pub password : Option Text
  pub remember_me : Flag

pub data LoginAnswer : Type 0 where
  validation invalid_credentials account_inactive account_expired : LoginAnswer
  too_many_attempts : ℕ → LoginAnswer
  gate_selection : Key → List Device → Bool → LoginAnswer
  signed_in : Key → ℕ → LoginAnswer

-- The answer to somebody whose password is right and whose account is usable.
unfoldable pub session_for : Gates → Flag → User → LoginAnswer
session_for gates remember_me user =
    let selectable = selectable_gates gates user.id in
    if is_security user.role && leb 1 (length selectable)
    then gate_selection user.id selectable (read_boolean_flag remember_me)
    else signed_in user.id (session_seconds_for remember_me)

abbrev pub has_lapsed : Option ℕ → ℕ → Bool
has_lapsed none now = false
has_lapsed (some seconds) now = leb (seconds * 1000) now

-- The user found, when the password is right.
unfoldable pub verified : (Text → Text → Bool) → Text → Option User → Option User
verified verify password none = none
verified verify password (some u) = if verify password u.password_hash then some u else none

module _ (now : ℕ) (source email : Text) where
  unfoldable pub login_as : Gates → Flag → Option User → List Attempt → LoginAnswer × List Attempt
  login_as gates remember_me none attempts =
      (invalid_credentials, record_auth_attempt AttemptKind.login email source false now attempts)
  login_as gates remember_me (some u) attempts =
      let cleared = clear_auth_attempts AttemptKind.login email source attempts in
      if not (eqt u.status (lit "active"))
      then (account_inactive, cleared)
      else if has_lapsed u.account_expires_at now
      then (account_expired, cleared)
      else (
        session_for gates remember_me u,
        record_auth_attempt AttemptKind.login email source true now cleared,
      )

  -- From the throttle on.
  unfoldable pub login_unless :
      (Text → Text → Bool)
      → Gates
      → List User
      → Text
      → Flag
      → Option ℕ
      → List Attempt
      → LoginAnswer × List Attempt
  login_unless verify gates users password remember_me (some seconds) attempts =
      (too_many_attempts seconds, attempts)
  login_unless verify gates users password remember_me none attempts =
      login_as gates remember_me
        (verified verify password (first (λ u. eqt (nocase u.email) (nocase email)) users)) attempts

-- The handler, for a request from the address whose hash is `source`.
unfoldable pub handle_login :
    (Text → Text → Bool)
    → ℕ
    → Text
    → Gates
    → List User
    → LoginRequest
    → List Attempt
    → LoginAnswer × List Attempt
handle_login verify now source gates users request attempts =
    let email = normalize_email request.email in
    let password = value_or request.password [] in
    if eqt email [] || eqt password []
    then (validation, attempts)
    else login_unless now source email verify gates users password request.remember_me
        (throttle_exceeded AttemptKind.login email source login_throttle now attempts) attempts
