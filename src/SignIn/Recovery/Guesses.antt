-- ===== src/SignIn/Recovery/Guesses.antt =====
-- What a request to reset a password (src/index.ts) changes of the users, and that a code is used once.
use estatemate_minmoe.Prelude.{
  ℕ, Bool, true, false, Option, none, some, [], ◌==◌, leb, count, update, length, value_or, ◌≡◌,
  refl, ap, ◌⊎◌, inl, inr, arith, Bool-cases, count-update_zero, newest,
}
use estatemate_minmoe.Prelude.Text.{Text}
use estatemate_minmoe.SignIn.Values.{
  PasswordProblem, normalize_email, looks_like_email, normalize_reset_code, password_problem,
  reset_code_length, reset_code_max_attempts,
}
use estatemate_minmoe.SignIn.Login.{has_lapsed}
use estatemate_minmoe.SignIn.Resets.{ResetRequest, ResetStatus, is_pending_of, reset_code_hash}
use estatemate_minmoe.SignIn.Recovery.{
  Db, ResetBody, ResetAnswer, changed, wrong_code, weak_password, closed, holds_hash, is_redeemable,
  redeem, handle_reset_password,
}

abbrev pub is_changed : ResetAnswer → Bool
is_changed changed = true
is_changed _ = false

abbrev pub is_wrong : ResetAnswer → Bool
is_wrong (wrong_code n) = true
is_wrong _ = false

module _ (sha256 hash_password : Text → Text) (now : ℕ) where
  -- The row that the request with this body would redeem.
  abbrev pub candidate : ResetBody → Db → Option ResetRequest
  candidate body db =
      newest (is_redeemable (normalize_email body.email) db.users) ResetRequest.last_requested_at
        db.requests

  abbrev pub redeemed : ResetBody → Db → ResetAnswer × Db
  redeemed body db =
      redeem sha256 hash_password now (normalize_reset_code body.code)
        (value_or body.new_password []) db (candidate body db)

  abbrev checked : ResetBody → Db → Option PasswordProblem → ResetAnswer × Db
  checked body db o = elim o [
    | some problem ↦ (weak_password problem, db)
    | none ↦ redeemed body db
  ]

  handled_lem :
      (body : ResetBody) (db : Db) (o : Option PasswordProblem)
      → (checked body db o ≡ redeemed body db)
        ⊎ ((checked body db o).1 ≡ db)
          × (is_changed (checked body db o).0 ≡ false)
          × (is_wrong (checked body db o).0 ≡ false)
  handled_lem body db none = inl refl
  handled_lem body db (some p) = inr (refl, refl, refl)

  -- A request is either redeemed, or refused with nothing changed.
  pub handle_lem :
      (body : ResetBody) (db : Db)
      → (handle_reset_password sha256 hash_password now body db ≡ redeemed body db)
        ⊎ ((handle_reset_password sha256 hash_password now body db).1 ≡ db)
          × (is_changed (handle_reset_password sha256 hash_password now body db).0 ≡ false)
          × (is_wrong (handle_reset_password sha256 hash_password now body db).0 ≡ false)
  unfolding handle_reset_password
  handle_lem body db = elim (Bool-cases (looks_like_email (normalize_email body.email))) [
    | inr odd ↦ rw odd (inr (refl, refl, refl))
    | inl fine ↦ elim (Bool-cases (length (normalize_reset_code body.code) == reset_code_length)) [
      | inr short ↦ rw (fine, short) (inr (refl, refl, refl))
      | inl whole ↦
          rw (fine, whole)
            (handled_lem body db (password_problem body.new_password (normalize_email body.email)))
    ]
  ]

  -- Another answer than `changed` leaves every user as it was, password and all.
  abbrev pub Unchanged : Db → ResetAnswer × Db → Type 0
  Unchanged db result = (is_changed result.0 ≡ false) × (result.1.users ≡ db.users)

  -- The answer `changed`: the row has the hash of the code, it has not expired, exactly the password of
  -- its account is set, and no request of the account is pending any more.
  abbrev pub Redeemed : Text → Text → Db → Option ResetRequest → ResetAnswer × Db → Type 0
  Redeemed code password db o result =
      (r : ResetRequest) × (is_changed result.0 ≡ true)
      × (o ≡ some r)
      × (holds_hash r.code_hash (reset_code_hash sha256 code) ≡ true)
      × (has_lapsed r.code_expires_at now ≡ false)
      × (result.1.users
          ≡ update (λ u. u.id == r.user_id)
              (λ u. record u { password_hash = hash_password password }) db.users)
      × (count (is_pending_of r.user_id) result.1.requests ≡ 0)

  redeemed_lem :
      (code password : Text) (db : Db) (o : Option ResetRequest)
      → Unchanged db (redeem sha256 hash_password now code password db o)
        ⊎ Redeemed code password db o (redeem sha256 hash_password now code password db o)
  unfolding redeem
  redeemed_lem code password db none = inl (refl, refl)
  redeemed_lem code password db (some r) = elim (Bool-cases (has_lapsed r.code_expires_at now)) [
    | inl late ↦ rw late (inl (refl, refl))
    | inr early ↦ elim (Bool-cases (leb reset_code_max_attempts r.code_attempts)) [
      | inl many ↦ rw (early, many) (inl (refl, refl))
      | inr few ↦ elim (Bool-cases (holds_hash r.code_hash (reset_code_hash sha256 code))) [
        | inr wrong ↦ rw (early, few, wrong) (inl (refl, refl))
        | inl right ↦
            let used =
              count-update_zero (is_pending_of r.user_id) (closed ResetStatus.completed) db.requests
                (λ q k. ground arith) in
            rw (early, few, right) (inr (r, refl, refl, right, early, refl, used))
      ]
    ]
  ]

  -- A password is changed only against the hash of the code in the newest redeemable row of the address,
  -- before that code expires: either the answer is not `changed` and every user is left as it was,
  -- password and all, or the answer is `changed`, there is such a row, exactly the password of its account
  -- is set, to the hash of the new one, and no request of that account is pending any more, so the
  -- code cannot be used again.
  pub changed-handle_reset_password :
      (body : ResetBody) (db : Db)
      → Unchanged db (handle_reset_password sha256 hash_password now body db)
        ⊎ Redeemed
            (normalize_reset_code body.code)
            (value_or body.new_password [])
            db
            (candidate body db)
            (handle_reset_password sha256 hash_password now body db)
  changed-handle_reset_password body db = elim (handle_lem body db) [
    | inl run ↦ rw run (
        redeemed_lem (normalize_reset_code body.code) (value_or body.new_password []) db
          (candidate body db))
    | inr (same, e, _) ↦ inl (e, ap Db.users same)
  ]
