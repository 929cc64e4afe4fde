-- ===== src/SignIn/Recovery/Differing.antt =====
-- Whether an answer of `/api/auth/forgot-password` tells that there is an account (src/index.ts).
use estatemate_minmoe.Prelude.{
  ℕ, Bool, true, false, Option, none, some, List, ◌≡◌, refl, sym, ap, ◌∙◌, arith, first, inl, inr,
  Bool-cases, is_some,
}
use estatemate_minmoe.Prelude.Text.{Text, eqt}
use estatemate_minmoe.SignIn.Values.{forgot_password_throttle, looks_like_email, normalize_email}
use estatemate_minmoe.SignIn.Attempts.{AttemptKind, throttle_exceeded}
use estatemate_minmoe.SignIn.Login.{User, nocase}
use estatemate_minmoe.SignIn.Resets.{
  Delivery, office, self_service, Drawn, RecordedReset, ResetRequest,
}
use estatemate_minmoe.SignIn.Recovery.{
  Db, Wording, code_if_account, office_if_account, enter_code, quote_reference, Queued,
  ForgotAnswer, queued, validation, wording_for, unknown_wording, answer_recorded, forgot_for,
  forgot_unless, handle_forgot_password,
}

-- Whether the sentence is one of those for an address with an account.
abbrev pub tells_account : Wording → Bool
tells_account code_if_account = false
tells_account office_if_account = false
tells_account enter_code = true
tells_account quote_reference = true

abbrev queued_tells : ForgotAnswer → Bool
queued_tells (queued q) = tells_account q.wording
queued_tells _ = true

abbrev is_queued : ForgotAnswer → Bool
is_queued (queued q) = true
is_queued _ = false

tells-unknown : (d : Delivery) → tells_account (unknown_wording d) ≡ false
tells-unknown office = refl
tells-unknown self_service = refl

tells-known : (code : Option Text) → tells_account (wording_for code) ≡ true
tells-known none = refl
tells-known (some c) = refl

-- The account, in the table of users, that the address given belongs to.
abbrev pub owner_of : Option Text → Db → Option User
owner_of value db = first (λ u. eqt (nocase u.email) (nocase (normalize_email value))) db.users

recorded_tells :
    (db : Db) (minutes : ℕ) (o : Option (RecordedReset × List ResetRequest)) (q : Queued)
    → (answer_recorded db minutes o).0 ≡ queued q
    → tells_account q.wording ≡ true
recorded_tells db minutes none q h = grind (arith, ap is_queued h)
recorded_tells db minutes (some (r, after)) q h = sym (ap queued_tells h) ∙ tells-known r.code

for_tells :
    (sha256 : Text → Text) (now : ℕ) (drawn : Drawn) (made_up email : Text) (delivery : Delivery)
    (minutes : ℕ) (db : Db) (o : Option User) (q : Queued)
    → (forgot_for sha256 now drawn made_up email delivery minutes db o).0 ≡ queued q
    → tells_account q.wording ≡ is_some o
unfolding forgot_for
for_tells sha256 now drawn made_up email delivery minutes db none q h =
    sym (ap queued_tells h) ∙ tells-unknown delivery
for_tells sha256 now drawn made_up email delivery minutes db (some u) q h =
    recorded_tells db minutes _ q h

unless_tells :
    (sha256 : Text → Text) (now : ℕ) (drawn : Drawn) (made_up source email : Text) (db : Db)
    (o : Option ℕ) (q : Queued)
    → (forgot_unless sha256 now drawn made_up source email db o).0 ≡ queued q
    → tells_account q.wording ≡ is_some (first (λ u. eqt (nocase u.email) (nocase email)) db.users)
unfolding forgot_unless
unless_tells sha256 now drawn made_up source email db (some n) q h = grind (arith, ap is_queued h)
unless_tells sha256 now drawn made_up source email db none q h =
    for_tells sha256 now drawn made_up email _ _ _ _ q h

-- The sentence of every answer that queues a request tells whether the address belongs to an account:
-- the sentences for an account are never those for an address without one.
pub telling-handle_forgot_password :
    (sha256 : Text → Text) (now : ℕ) (drawn : Drawn) (made_up source : Text) (value : Option Text)
    (db : Db) (q : Queued)
    → (handle_forgot_password sha256 now drawn made_up source value db).0 ≡ queued q
    → tells_account q.wording ≡ is_some (owner_of value db)
unfolding handle_forgot_password
telling-handle_forgot_password sha256 now drawn made_up source value db q h =
    elim (Bool-cases (looks_like_email (normalize_email value))) [
      | inl fine ↦
          let run : handle_forgot_password sha256 now drawn made_up source value db
              ≡ forgot_unless sha256 now drawn made_up source (normalize_email value) db (
                  throttle_exceeded AttemptKind.forgot_password (normalize_email value) source
                    forgot_password_throttle now db.attempts) =
            rw fine refl in
          unless_tells sha256 now drawn made_up source (normalize_email value) db _ q
            (sym (ap (λ r. r.0) run) ∙ h)
      | inr odd ↦
          let run : handle_forgot_password sha256 now drawn made_up source value db
              ≡ (validation, db) =
            rw odd refl in
          grind (arith, ap is_queued (sym (ap (λ r. r.0) run) ∙ h))
    ]
