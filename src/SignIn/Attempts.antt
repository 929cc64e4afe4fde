-- ===== src/SignIn/Attempts.antt =====
-- The table `auth_attempts` and the throttle over it (src/index.ts). A time is in milliseconds, and
-- SQLite's `datetime('now')` is its whole seconds.
use estatemate_minmoe.Prelude.{
  ℕ, ◌+◌, ◌*◌, ◌/◌, Bool, true, false, not, ◌&&◌, Option, none, some, List, [], ◌∷◌, ◌++◌, ltb,
  if◌then◌else◌, select, count, min,
}
use estatemate_minmoe.Prelude.Text.{Text, eqt}
use estatemate_minmoe.SignIn.Values.{ThrottleLimits, retry_after_seconds}

pub data AttemptKind : Type 0 where
  login forgot_password : AttemptKind

abbrev pub same_kind : AttemptKind → AttemptKind → Bool
same_kind login login = true
same_kind forgot_password forgot_password = true
same_kind _ _ = false

-- A row; `created_at` is in seconds.
pub record Attempt : Type 0 where
  pub kind : AttemptKind
  pub email : Text
  pub source_hash : Text
  pub succeeded : Bool
  pub created_at : ℕ

-- `kind=? AND email=? AND succeeded=0 AND created_at>datetime('now','-… minutes')`
abbrev pub is_recent_failure : AttemptKind → Text → ℕ → ℕ → Attempt → Bool
is_recent_failure kind email window_minutes now a =
    same_kind a.kind kind
    && eqt a.email email
    && not a.succeeded
    && ltb (now / 1000) (a.created_at + window_minutes * 60)

abbrev pub is_recent_failure_from : AttemptKind → Text → Text → ℕ → ℕ → Attempt → Bool
is_recent_failure_from kind email source window_minutes now a =
    eqt a.source_hash source && is_recent_failure kind email window_minutes now a

pub record ThrottleReading : Type 0 where
  pub source : ℕ
  pub email : ℕ
  pub oldest : Option ℕ

-- `SELECT MIN(created_at)`
unfoldable pub oldest_of : List Attempt → Option ℕ
oldest_of [] = none
oldest_of (a ∷ rest) = elim (oldest_of rest) [
  | none ↦ some a.created_at
  | some t ↦ some (min a.created_at t)
]

unfoldable pub read_throttle : AttemptKind → Text → Text → ℕ → ℕ → List Attempt → ThrottleReading
read_throttle kind email source window_minutes now attempts = record {
  source = count (is_recent_failure_from kind email source window_minutes now) attempts;
  email = count (is_recent_failure kind email window_minutes now) attempts;
  oldest = oldest_of (select (is_recent_failure kind email window_minutes now) attempts);
}

-- The row of an attempt; ids are left out.
abbrev pub attempt_row : AttemptKind → Text → Text → Bool → ℕ → Attempt
attempt_row kind email source succeeded now = record {
  kind = kind;
  email = email;
  source_hash = source;
  succeeded = succeeded;
  created_at = now / 1000;
}

unfoldable pub record_auth_attempt :
    AttemptKind → Text → Text → Bool → ℕ → List Attempt → List Attempt
record_auth_attempt kind email source succeeded now attempts =
    attempts ++ attempt_row kind email source succeeded now ∷ []

unfoldable pub clear_auth_attempts : AttemptKind → Text → Text → List Attempt → List Attempt
clear_auth_attempts kind email source attempts =
    select
      (λ a.
        not (
          same_kind a.kind kind
          && eqt a.email email
          && eqt a.source_hash source
          && not a.succeeded))
      attempts

abbrev pub stored_ms : Option ℕ → Option ℕ
stored_ms none = none
stored_ms (some t) = some (t * 1000)

-- `throttleExceeded`: the seconds to wait, or nothing when the request may proceed.
unfoldable pub throttle_exceeded :
    AttemptKind → Text → Text → ThrottleLimits → ℕ → List Attempt → Option ℕ
unfolding read_throttle
throttle_exceeded kind email source limits now attempts =
    let reading = read_throttle kind email source limits.window_minutes now attempts in
    if ltb reading.source limits.per_source && ltb reading.email limits.per_email
    then none
    else some (retry_after_seconds (stored_ms reading.oldest) limits.window_minutes now)
