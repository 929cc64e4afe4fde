-- ===== src/SignIn/Login/Reached.antt =====
-- Requests to sign in to src/index.ts one after the other, and what a wrong guess learns.
use estatemate_minmoe.Prelude.{
  ℕ, ◌≤◌, Bool, Option, none, some, List, [], ◌≡◌, refl, arith, value_or, first,
}
use estatemate_minmoe.Prelude.Text.{Text, eqt}
use estatemate_minmoe.SignIn.Values.{normalize_email, login_throttle}
use estatemate_minmoe.SignIn.Attempts.{AttemptKind, Attempt, throttle_exceeded}
use estatemate_minmoe.SignIn.Login.{
  User, Gates, LoginRequest, nocase, verified, login_as, login_unless, handle_login,
}
use estatemate_minmoe.SignIn.Login.Throttled.{
  WithinLimits, WithinLimits-later, WithinLimits-handle_login,
}

-- The tables that the route can leave: requests to sign in one after the other, each at its time, from any address,
-- for any account, with the users and the passwords as they are then.
pub data Reachable : ℕ → List Attempt → Type 0 where
  started : (now : ℕ) → Reachable now []
  waited :
      (now later : ℕ) (attempts : List Attempt)
      → now ≤ later
      → Reachable now attempts
      → Reachable later attempts
  requested :
      (verify : Text → Text → Bool) (now : ℕ) (source : Text) (gates : Gates) (users : List User)
      (request : LoginRequest) (attempts : List Attempt)
      → Reachable now attempts
      → Reachable now (handle_login verify now source gates users request attempts).1

-- However many requests to sign in arrive, from however many addresses: of the failures for one
-- account in the last 15 minutes, the table never holds more than 8 from one source, nor more than 25
-- in all.
pub Reachable-WithinLimits :
    (now : ℕ) (attempts : List Attempt) → Reachable now attempts → WithinLimits now attempts
Reachable-WithinLimits _ _ (started now) = λ email source. (omega arith, omega arith)
Reachable-WithinLimits _ _ (waited now later attempts h r) =
    WithinLimits-later now later attempts h (Reachable-WithinLimits now attempts r)
Reachable-WithinLimits _ _ (requested verify now source gates users request attempts r) =
    WithinLimits-handle_login verify now source gates users request attempts
      (Reachable-WithinLimits now attempts r)

-- The account whose password the request gives, in a table of users.
abbrev pub signing_in : (Text → Text → Bool) → LoginRequest → List User → Option User
signing_in verify request users =
    verified verify (value_or request.password [])
      (first (λ u. eqt (nocase u.email) (nocase (normalize_email request.email))) users)

unless-same :
    (verify : Text → Text → Bool) (now : ℕ) (source : Text) (gates gates' : Gates)
    (users users' : List User) (request : LoginRequest) (attempts : List Attempt) (o : Option ℕ)
    → signing_in verify request users ≡ none
    → signing_in verify request users' ≡ none
    → login_unless now source
        (normalize_email request.email)
        verify
        gates
        users
        (value_or request.password [])
        request.remember_me
        o
        attempts
      ≡ login_unless now source
          (normalize_email request.email)
          verify
          gates'
          users'
          (value_or request.password [])
          request.remember_me
          o
          attempts
unfolding login_unless login_as
unless-same verify now source gates gates' users users' request attempts (some n) h k = refl
unless-same verify now source gates gates' users users' request attempts none h k = rw (h, k) refl

-- A guess that fails tells nothing: when the password is right for the account of neither table of
-- users, whether there is an account or not, the answer and the attempts recorded are the same.
pub same-handle_login :
    (verify : Text → Text → Bool) (now : ℕ) (source : Text) (gates gates' : Gates)
    (users users' : List User) (request : LoginRequest) (attempts : List Attempt)
    → signing_in verify request users ≡ none
    → signing_in verify request users' ≡ none
    → handle_login verify now source gates users request attempts
      ≡ handle_login verify now source gates' users' request attempts
unfolding handle_login
same-handle_login verify now source gates gates' users users' request attempts h k =
    rw
      (unless-same verify now source gates gates' users users' request attempts
        (throttle_exceeded AttemptKind.login (normalize_email request.email) source login_throttle
          now attempts)
        h k)
      refl
