-- ===== src/SignIn/Login/Throttled.antt =====
-- How many failures the table of src/index.ts can hold for one account within the window.
use estatemate_minmoe.Prelude.{
  ℕ, ◌/◌, ◌≤◌, ◌<◌, Bool, true, false, ◌||◌, Option, none, some, List, [], ◌∷◌, select, count,
  value_or, ◌≡◌, refl, subst, inl, inr, arith, count-append, count-narrow, Bool-cases,
}
use estatemate_minmoe.Prelude.Text.{Text, lit, eqt, eqt_iff}
use estatemate_minmoe.SignIn.Values.{Flag, login_throttle, normalize_email}
use estatemate_minmoe.SignIn.Attempts.{
  AttemptKind, Attempt, is_recent_failure, is_recent_failure_from, attempt_row, read_throttle,
  record_auth_attempt, clear_auth_attempts, throttle_exceeded,
}
use estatemate_minmoe.SignIn.Login.{
  User, Gates, LoginRequest, has_lapsed, login_as, login_unless, handle_login,
}

-- The failures to sign in as `email` within the window before `now`: from one source, and from any.
abbrev pub failures_from : Text → Text → ℕ → List Attempt → ℕ
failures_from email source now =
    count (is_recent_failure_from AttemptKind.login email source 15 now)

abbrev pub failures : Text → ℕ → List Attempt → ℕ
failures email now = count (is_recent_failure AttemptKind.login email 15 now)

-- The limits of the throttle hold of the table at `now`, for every account and every source.
abbrev pub WithinLimits : ℕ → List Attempt → Type 0
WithinLimits now attempts =
    (email source : Text)
    → (failures_from email source now attempts ≤ 8) × (failures email now attempts ≤ 25)

module _ {ℓ} {A : Type ℓ} where
  count-select_le : (p q : A → Bool) (xs : List A) → count p (select q xs) ≤ count p xs
  count-select_le p q [] = omega arith
  count-select_le p q (x ∷ xs) = ground (arith, count-select_le p q xs)

-- Time only takes failures out of the window.
failure_ages :
    (email : Text) (now later : ℕ) (a : Attempt)
    → now ≤ later
    → is_recent_failure AttemptKind.login email 15 later a ≡ true
    → is_recent_failure AttemptKind.login email 15 now a ≡ true
failure_ages email now later a h k =
    let earlier : now / 1000 ≤ later / 1000 = omega arith in ground arith

pub WithinLimits-later :
    (now later : ℕ) (attempts : List Attempt)
    → now ≤ later
    → WithinLimits now attempts
    → WithinLimits later attempts
WithinLimits-later now later attempts h w email source =
    let by_source =
      count-narrow (is_recent_failure_from AttemptKind.login email source 15 later)
        (is_recent_failure_from AttemptKind.login email source 15 now) attempts
        (λ a k. ground (arith, failure_ages email now later a h)) in
    let by_email =
      count-narrow (is_recent_failure AttemptKind.login email 15 later)
        (is_recent_failure AttemptKind.login email 15 now) attempts
        (λ a k. failure_ages email now later a h k) in
    (omega (arith, by_source, (w email source).0), omega (arith, by_email, (w email source).1))

-- A request that is not held back finds both counts below their limits.
open_lem :
    (email source : Text) (now : ℕ) (attempts : List Attempt)
    → throttle_exceeded AttemptKind.login email source login_throttle now attempts ≡ none
    → (failures_from email source now attempts < 8) × (failures email now attempts < 25)
unfolding throttle_exceeded read_throttle
open_lem email source now attempts h = ground arith

WithinLimits-clear_auth_attempts :
    (email source : Text) (now : ℕ) (attempts : List Attempt)
    → WithinLimits now attempts
    → WithinLimits now (clear_auth_attempts AttemptKind.login email source attempts)
unfolding clear_auth_attempts
WithinLimits-clear_auth_attempts email source now attempts w other place = (
  omega (
    arith,
    (w other place).0,
    count-select_le (is_recent_failure_from AttemptKind.login other place 15 now) _ attempts,
  ),
  omega (
    arith,
    (w other place).1,
    count-select_le (is_recent_failure AttemptKind.login other 15 now) _ attempts,
  ),
)

WithinLimits-success :
    (email source : Text) (now : ℕ) (attempts : List Attempt)
    → WithinLimits now attempts
    → WithinLimits now (record_auth_attempt AttemptKind.login email source true now attempts)
unfolding record_auth_attempt
WithinLimits-success email source now attempts w other place =
    let row = attempt_row AttemptKind.login email source true now ∷ [] in
    let by_source =
      count-append (is_recent_failure_from AttemptKind.login other place 15 now) attempts row in
    let by_email = count-append (is_recent_failure AttemptKind.login other 15 now) attempts row in
    (ground (arith, by_source, (w other place).0), ground (arith, by_email, (w other place).1))

module _ (email source : Text) (now : ℕ) (attempts : List Attempt)
    (h : throttle_exceeded AttemptKind.login email source login_throttle now attempts ≡ none)
    (w : WithinLimits now attempts) where
  abbrev Bounded : Text → Text → Type 0
  Bounded other place =
      (failures_from other place now
          (record_auth_attempt AttemptKind.login email source false now attempts)
        ≤ 8)
      × (failures other now (record_auth_attempt AttemptKind.login email source false now attempts)
          ≤ 25)

  abbrev row : List Attempt
  row = attempt_row AttemptKind.login email source false now ∷ []

  own-Bounded : Bounded email source
  unfolding record_auth_attempt
  own-Bounded =
      let by_source =
        count-append (is_recent_failure_from AttemptKind.login email source 15 now) attempts row in
      let by_email = count-append (is_recent_failure AttemptKind.login email 15 now) attempts row in
      let room = open_lem email source now attempts h in
      (ground (arith, by_source, room.0), ground (arith, by_email, room.1))

  elsewhere-Bounded : (place : Text) → eqt source place ≡ false → Bounded email place
  unfolding record_auth_attempt
  elsewhere-Bounded place apart =
      let by_source =
        count-append (is_recent_failure_from AttemptKind.login email place 15 now) attempts row in
      let by_email = count-append (is_recent_failure AttemptKind.login email 15 now) attempts row in
      let room = open_lem email source now attempts h in
      (ground (arith, by_source, (w email place).0), ground (arith, by_email, room.1))

  others-Bounded : (other place : Text) → eqt email other ≡ false → Bounded other place
  unfolding record_auth_attempt
  others-Bounded other place apart =
      let by_source =
        count-append (is_recent_failure_from AttemptKind.login other place 15 now) attempts row in
      let by_email = count-append (is_recent_failure AttemptKind.login other 15 now) attempts row in
      (ground (arith, by_source, (w other place).0), ground (arith, by_email, (w other place).1))

  own_email-Bounded : (place : Text) → Bounded email place
  own_email-Bounded place = elim (Bool-cases (eqt source place)) [
    | inl same ↦ subst (λ t. Bounded email t) ((eqt_iff source place).0 same) own-Bounded
    | inr apart ↦ elsewhere-Bounded place apart
  ]

  WithinLimits-failure :
      WithinLimits now (record_auth_attempt AttemptKind.login email source false now attempts)
  WithinLimits-failure other place = elim (Bool-cases (eqt email other)) [
    | inl same ↦
        subst (λ t. Bounded t place) ((eqt_iff email other).0 same) (own_email-Bounded place)
    | inr apart ↦ others-Bounded other place apart
  ]

WithinLimits-login_as :
    (now : ℕ) (source email : Text) (gates : Gates) (remember_me : Flag) (user : Option User)
    (attempts : List Attempt)
    → throttle_exceeded AttemptKind.login email source login_throttle now attempts ≡ none
    → WithinLimits now attempts
    → WithinLimits now (login_as now source email gates remember_me user attempts).1
unfolding login_as
WithinLimits-login_as now source email gates remember_me none attempts h w =
    WithinLimits-failure email source now attempts h w
WithinLimits-login_as now source email gates remember_me (some u) attempts h w =
    let cleared = WithinLimits-clear_auth_attempts email source now attempts w in
    elim (Bool-cases (eqt u.status (lit "active"))) [
      | inr closed ↦ rw closed cleared
      | inl usable ↦ elim (Bool-cases (has_lapsed u.account_expires_at now)) [
        | inl lapsed ↦ rw (usable, lapsed) cleared
        | inr current ↦ rw (usable, current) (WithinLimits-success email source now _ cleared)
      ]
    ]

WithinLimits-login_unless :
    (verify : Text → Text → Bool) (now : ℕ) (source email password : Text) (gates : Gates)
    (users : List User) (remember_me : Flag) (attempts : List Attempt) (o : Option ℕ)
    → throttle_exceeded AttemptKind.login email source login_throttle now attempts ≡ o
    → WithinLimits now attempts
    → WithinLimits now
        (login_unless now source email verify gates users password remember_me o attempts).1
unfolding login_unless
WithinLimits-login_unless verify now source email password gates users remember_me attempts (some n)
      h w =
    w
WithinLimits-login_unless verify now source email password gates users remember_me attempts none h
      w =
    WithinLimits-login_as now source email gates remember_me _ attempts h w

pub WithinLimits-handle_login :
    (verify : Text → Text → Bool) (now : ℕ) (source : Text) (gates : Gates) (users : List User)
    (request : LoginRequest) (attempts : List Attempt)
    → WithinLimits now attempts
    → WithinLimits now (handle_login verify now source gates users request attempts).1
unfolding handle_login
WithinLimits-handle_login verify now source gates users request attempts w =
    elim (Bool-cases
      (eqt (normalize_email request.email) [] || eqt (value_or request.password []) [])) [
        | inl missing ↦ rw missing w
        | inr given ↦ rw given (
            WithinLimits-login_unless verify now source (normalize_email request.email)
              (value_or request.password []) gates users request.remember_me attempts _ refl w)
      ]
