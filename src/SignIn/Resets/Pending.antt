-- ===== src/SignIn/Resets/Pending.antt =====
-- How many pending requests a person has after `recordResetRequest` of src/index.ts.
use estatemate_minmoe.Prelude.{
  ℕ, ◌≤◌, Bool, Option, none, some, List, [], ◌∷◌, ◌++◌, ◌==◌, update, count, ◌≡◌, refl, sym, ap,
  ◌∙◌, inl, inr, arith, ==_refl, count-append, count-update_zero, count-update_same, Bool-cases,
  newest,
}
use estatemate_minmoe.Prelude.Text.{Text}
use estatemate_minmoe.Hardware.{Key}
use estatemate_minmoe.SignIn.Resets.{
  ResetRequest, Delivery, office, self_service, Drawn, RecordedReset, Asked, is_pending_of,
  superseded, reset_row, renewed, is_reusable, open_reset, reuse_or_open, new_reset_reference,
  asked_for, record_reset_request,
}

module _ {ℓ} {A : Type ℓ} (p : A → Bool) where
  newest-count : (key : A → ℕ) (xs : List A) (a : A) → newest p key xs ≡ some a → 1 ≤ count p xs
  unfolding newest
  newest-count key [] a h = grind arith
  newest-count key (x ∷ xs) a h = elim (Bool-cases (p x)) [
    | inl here ↦ ground arith
    | inr there ↦
        let found : newest p key xs ≡ some a = ground arith in
        ground (arith, newest-count key xs a found)
  ]

abbrev rows : Option (RecordedReset × List ResetRequest) → List ResetRequest
rows none = []
rows (some (r, after)) = after

module _ (now : ℕ) (drawn : Drawn) (asked : Asked) where
  abbrev pending_in : List ResetRequest → ℕ
  pending_in = count (is_pending_of asked.user_id)

  -- A new request is the only pending one.
  opened_single :
      (reference : Text) (requests : List ResetRequest)
      → pending_in (
          update (is_pending_of asked.user_id) superseded requests
          ++ reset_row now drawn.id reference asked ∷ [])
        ≡ 1
  opened_single reference requests =
      let row = reset_row now drawn.id reference asked ∷ [] in
      let gone =
        count-update_zero (is_pending_of asked.user_id) superseded requests (λ r h. ground arith) in
      let both =
        count-append (is_pending_of asked.user_id)
          (update (is_pending_of asked.user_id) superseded requests) row in
      ground (arith, both, gone, ==_refl asked.user_id)

  open_reset-single :
      (o : Option Text) (requests : List ResetRequest) (r : RecordedReset)
      (after : List ResetRequest)
      → open_reset now drawn.id asked o requests ≡ some (r, after)
      → pending_in after ≡ 1
  unfolding open_reset
  open_reset-single none requests r after h = grind arith
  open_reset-single (some reference) requests r after h =
      sym (ap (λ o. pending_in (rows o)) h) ∙ opened_single reference requests

  reuse-single :
      (o : Option ResetRequest) (requests : List ResetRequest) (r : RecordedReset)
      (after : List ResetRequest)
      → newest (is_pending_of asked.user_id) ResetRequest.last_requested_at requests ≡ o
      → pending_in requests ≤ 1
      → reuse_or_open now drawn asked o requests ≡ some (r, after)
      → pending_in after ≡ 1
  unfolding reuse_or_open
  reuse-single none requests r after found few h = open_reset-single _ requests r after h
  reuse-single (some q) requests r after found few h = elim (Bool-cases (is_reusable now asked q)) [
    | inl again ↦
        let kept =
          count-update_same (is_pending_of asked.user_id) (λ t. t.id == q.id) (renewed now asked)
            requests (λ t. refl) in
        let one =
          newest-count (is_pending_of asked.user_id) ResetRequest.last_requested_at requests q
            found in
        sym (ap (λ o. pending_in (rows o)) h) ∙ rw again (omega (arith, kept, one))
    | inr stale ↦
        let run : reuse_or_open now drawn asked (some q) requests
            ≡ open_reset now drawn.id asked (new_reset_reference 10 0 drawn.references requests)
                requests =
          rw stale refl in
        open_reset-single (new_reset_reference 10 0 drawn.references requests) requests r after
          (sym run ∙ h)
  ]

-- A person who has at most one pending request has exactly one after a request that is recorded,
-- whether the pending one is used again or a new one takes its place.
pub record_reset_request-single :
    (sha256 : Text → Text) (now : ℕ) (drawn : Drawn) (user : Key) (email : Text)
    (delivery : Delivery) (minutes : ℕ) (requests : List ResetRequest) (r : RecordedReset)
    (after : List ResetRequest)
    → count (is_pending_of user) requests ≤ 1
    → record_reset_request sha256 now drawn user email delivery minutes requests ≡ some (r, after)
    → count (is_pending_of user) after ≡ 1
unfolding record_reset_request
record_reset_request-single sha256 now drawn user email office minutes requests r after few h =
    reuse-single now drawn (asked_for sha256 now drawn.code user email office minutes) _ requests r
      after refl few h
record_reset_request-single sha256 now drawn user email self_service minutes requests r after few
      h =
    reuse-single now drawn (asked_for sha256 now drawn.code user email self_service minutes) _
      requests r after refl few h
