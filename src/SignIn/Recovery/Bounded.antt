-- ===== src/SignIn/Recovery/Bounded.antt =====
-- How many wrong guesses a reset code of src/index.ts is given, over a run of requests.
use estatemate_minmoe.Prelude.{
  ℕ, ◌+◌, ◌-◌, ◌*◌, ◌≤◌, Bool, true, false, ◌&&◌, Option, none, some, List, [], ◌∷◌, ◌++◌, ◌==◌,
  leb, if◌then◌else◌, count, update, value_or, total, newest-Occurs, ◌≡◌, refl, inl, inr, arith,
  Bool-cases, ==_refl,
}
use estatemate_minmoe.Prelude.Text.{Text}
use estatemate_minmoe.Hardware.{Key}
use estatemate_minmoe.SignIn.Values.{normalize_email, normalize_reset_code, reset_code_max_attempts}
use estatemate_minmoe.SignIn.Login.{has_lapsed}
use estatemate_minmoe.SignIn.Resets.{ResetRequest, ResetStatus, is_pending_of, reset_code_hash}
use estatemate_minmoe.SignIn.Recovery.{
  Db, ResetBody, closed, guessed, has_code, holds_hash, is_redeemable, redeem,
  handle_reset_password,
}
use estatemate_minmoe.SignIn.Recovery.Guesses.{is_wrong, candidate, handle_lem}

-- The guesses that a row still allows.
abbrev guesses_left : ResetRequest → ℕ
guesses_left q = if has_code q then 5 - q.code_attempts else 0

abbrev left_under : Key → List ResetRequest → ℕ
left_under k = total (λ q. if q.id == k then guesses_left q else 0)

module _ {A : Type 0} (w : A → ℕ) (f : A → A) (shrinks : (x : A) → w (f x) ≤ w x) where
  total-shrinks : (q : A → Bool) (xs : List A) → total w (update q f xs) ≤ total w xs
  total-shrinks q [] = omega arith
  total-shrinks q (x ∷ xs) = ground (arith, shrinks x, total-shrinks q xs)

  -- A row that the update reaches and that gets lighter makes the sum smaller.
  total-lighter :
      (q : A → Bool) (a : A) (front back : List A)
      → q a ≡ true
      → w (f a) + 1 ≤ w a
      → total w (update q f (front ++ a ∷ back)) + 1 ≤ total w (front ++ a ∷ back)
  total-lighter q a [] back reached lighter = ground (arith, reached, lighter, total-shrinks q back)
  total-lighter q a (x ∷ front) back reached lighter =
      ground (arith, shrinks x, total-lighter q a front back reached lighter)

module _ (k : Key) where
  abbrev weight : ResetRequest → ℕ
  weight q = if q.id == k then guesses_left q else 0

  guessed-shrinks : (q : ResetRequest) → weight (guessed q) ≤ weight q
  guessed-shrinks q = ground arith

  closed-shrinks : (status : ResetStatus) (q : ResetRequest) → weight (closed status q) ≤ weight q
  closed-shrinks status q = ground arith

  guessed-lighter :
      (r : ResetRequest)
      → (r.id == k) ≡ true
      → has_code r ≡ true
      → leb reset_code_max_attempts r.code_attempts ≡ false
      → weight (guessed r) + 1 ≤ weight r
  guessed-lighter r own coded few = ground arith

abbrev pub tells : Key → Option ResetRequest → Bool
tells k none = false
tells k (some r) = r.id == k

module _ (sha256 hash_password : Text → Text) (k : Key) where
  -- A request that guesses wrong at the row `k`: the answer says so, and the row is the one that the code
  -- was checked against.
  abbrev pub is_wrong_at : ℕ → ResetBody → Db → Bool
  is_wrong_at now body db =
      is_wrong (handle_reset_password sha256 hash_password now body db).0
      && tells k (candidate sha256 hash_password now body db)

  abbrev pub wrong_guesses : List (ℕ × ResetBody) → Db → ℕ
  wrong_guesses [] db = 0
  wrong_guesses ((now, body) ∷ later) db =
      (if is_wrong_at now body db then 1 else 0)
      + wrong_guesses later (handle_reset_password sha256 hash_password now body db).1

  closed-left :
      (status : ResetStatus) (q : ResetRequest → Bool) (rows : List ResetRequest)
      → left_under k (update q (closed status) rows) ≤ left_under k rows
  closed-left status q rows =
      total-shrinks (weight k) (closed status) (closed-shrinks k status) q rows

  guessed-left :
      (r : ResetRequest) (front back : List ResetRequest)
      → has_code r ≡ true
      → leb reset_code_max_attempts r.code_attempts ≡ false
      → (if r.id == k then 1 else 0)
          + left_under k (update (λ q. q.id == r.id) guessed (front ++ r ∷ back))
        ≤ left_under k (front ++ r ∷ back)
  guessed-left r front back coded few = elim (Bool-cases (r.id == k)) [
    | inl own ↦
        let less =
          total-lighter (weight k) guessed (guessed-shrinks k) (λ q. q.id == r.id) r front back
            (==_refl r.id) (guessed-lighter k r own coded few) in
        rw own (omega (arith, less))
    | inr other ↦
        let less =
          total-shrinks (weight k) guessed (guessed-shrinks k) (λ q. q.id == r.id)
            (front ++ r ∷ back) in
        rw other (omega (arith, less))
  ]

  redeem-left :
      (now : ℕ) (code password : Text) (db : Db) (o : Option ResetRequest)
      → ((r : ResetRequest)
          → o ≡ some r
          → (front : List ResetRequest) × (back : List ResetRequest) × (db.requests
              ≡ front ++ r ∷ back)
            × (has_code r ≡ true))
      → (if is_wrong (redeem sha256 hash_password now code password db o).0 && tells k o
            then 1
            else 0)
          + left_under k (redeem sha256 hash_password now code password db o).1.requests
        ≤ left_under k db.requests
  unfolding redeem
  redeem-left now code password db none found = omega arith
  redeem-left now code password db (some r) found =
      let (front, back, same, coded) = found r refl in
      let shut = closed-left ResetStatus.expired (λ q. q.id == r.id) db.requests in
      let used = closed-left ResetStatus.completed (is_pending_of r.user_id) db.requests in
      elim (Bool-cases (has_lapsed r.code_expires_at now)) [
        | inl late ↦ rw late (omega (arith, shut))
        | inr early ↦ elim (Bool-cases (leb reset_code_max_attempts r.code_attempts)) [
          | inl many ↦ rw (early, many) (omega (arith, shut))
          | inr few ↦ elim (Bool-cases (holds_hash r.code_hash (reset_code_hash sha256 code))) [
            | inr wrong ↦ rw (early, few, wrong, same) (guessed-left r front back coded few)
            | inl right ↦ rw (early, few, right) (omega (arith, used))
          ]
        ]
      ]

  -- A wrong guess at the row `k` takes one of the guesses that it still allows, and no other request adds
  -- one.
  handle-left :
      (now : ℕ) (body : ResetBody) (db : Db)
      → (if is_wrong_at now body db then 1 else 0)
          + left_under k (handle_reset_password sha256 hash_password now body db).1.requests
        ≤ left_under k db.requests
  handle-left now body db = elim (handle_lem sha256 hash_password now body db) [
    | inl run ↦ rw run (
        redeem-left now (normalize_reset_code body.code) (value_or body.new_password []) db
          (candidate sha256 hash_password now body db)
          (λ r e.
            let (front, back, same, h) =
              newest-Occurs (is_redeemable (normalize_email body.email) db.users)
                ResetRequest.last_requested_at db.requests r e in
            (front, back, same, ground (arith, h))))
    | inr (same, _, e) ↦ rw (e, same) (omega arith)
  ]

  wrong_guesses-left :
      (run : List (ℕ × ResetBody)) (db : Db) → wrong_guesses run db ≤ left_under k db.requests
  wrong_guesses-left [] db = omega arith
  wrong_guesses-left ((now, body) ∷ later) db =
      let next = (handle_reset_password sha256 hash_password now body db).1 in
      omega (arith, handle-left now body db, wrong_guesses-left later next)

left-count :
    (k : Key) (rows : List ResetRequest) → left_under k rows ≤ 5 * count (λ q. q.id == k) rows
left-count k [] = omega arith
left-count k (q ∷ rows) = ground (arith, left-count k rows)

-- However many requests to reset a password arrive, with whatever codes and at whatever times: one row of
-- `password_reset_requests`, if it is the only one under its id, is guessed wrong at no more than five
-- times, counting the answers `wrong_code` to requests whose code was checked against that row.
pub wrong_guesses_bound :
    (sha256 hash_password : Text → Text) (k : Key) (run : List (ℕ × ResetBody)) (db : Db)
    → count (λ q. q.id == k) db.requests ≤ 1
    → wrong_guesses sha256 hash_password k run db ≤ reset_code_max_attempts
wrong_guesses_bound sha256 hash_password k run db single =
    omega
      (arith, wrong_guesses-left sha256 hash_password k run db, left-count k db.requests, single)
