-- ===== src/Billing/Reconciled/Steps.antt =====
-- Bills and payments of src/index.ts stay in agreement under the two routes for payments.
use estatemate_minmoe.Prelude.{
  ℕ, ◌≤◌, Bool, true, false, not, ◌&&◌, ◌||◌, Option, none, some, List, [], ◌∷◌, ◌++◌, ◌==◌, all,
  update, first, count, ◌≡◌, refl, ap, ◌∙◌, arith, ==_refl, first-with, keyed-only, total-append,
  total-update,
}
use estatemate_minmoe.Hardware.{Key}
use estatemate_minmoe.Billing.{
  Bill, Payment, PaymentStatus, Db, Actor, PaymentRequest, received, returned, received_term,
  returned_term, is_pending, payment_row, record_payment, handle_payment, review_row, verdict,
  review_found, handle_review,
}
use estatemate_minmoe.Billing.Reconciled.{fits, agrees, has_amount, reconcile_bill-agrees}

-- Sums that are the same give a bill the same status.
agrees-same :
    (before after : List Payment) (b : Bill)
    → received b.id after ≡ received b.id before
    → returned b.id after ≡ returned b.id before
    → agrees after b ≡ agrees before b
agrees-same before after b r s =
    ap (λ n. fits b.status b.amount_minor n (returned b.id after)) r
    ∙ ap (λ n. fits b.status b.amount_minor (received b.id before) n) s

all-same :
    (before after : List Payment) (bills : List Bill)
    → ((b : Bill) → agrees after b ≡ agrees before b)
    → all (agrees before) bills ≡ true
    → all (agrees after) bills ≡ true
all-same before after [] k h = refl
all-same before after (b ∷ bs) k h = ground (arith, k b, all-same before after bs k)

all-elsewhere :
    (bill : Key) (before after : List Payment) (bills : List Bill)
    → ((b : Bill) → (b.id == bill) ≡ false → agrees after b ≡ agrees before b)
    → all (agrees before) bills ≡ true
    → all (λ b. b.id == bill || agrees after b) bills ≡ true
all-elsewhere bill before after [] k h = refl
all-elsewhere bill before after (b ∷ bs) k h =
    ground (arith, k b, all-elsewhere bill before after bs k)

agrees-append :
    (row : Payment) (payments : List Payment) (b : Bill)
    → received_term b.id row ≡ 0
    → returned_term b.id row ≡ 0
    → agrees (payments ++ row ∷ []) b ≡ agrees payments b
agrees-append row payments b r s =
    agrees-same payments (payments ++ row ∷ []) b
      (omega (arith, total-append (received_term b.id) payments (row ∷ [])))
      (omega (arith, total-append (returned_term b.id) payments (row ∷ [])))

module _ (amount : Key → ℕ) (db : Db) where
  record_payment-agrees :
      (id : Key) (actor : Actor) (request : PaymentRequest) (status : PaymentStatus)
      → all (has_amount amount) db.bills ≡ true
      → all (agrees db.payments) db.bills ≡ true
      → (let after = record_payment id actor request status db in
          all (agrees after.payments) after.bills)
        ≡ true
  record_payment-agrees id actor request PaymentStatus.approved ha h =
      let row = payment_row id actor request PaymentStatus.approved in
      reconcile_bill-agrees amount request.bill_id
        (record db { payments = db.payments ++ row ∷ [] }) ha
        (all-elsewhere request.bill_id db.payments (db.payments ++ row ∷ []) db.bills
          (λ b k. agrees-append row db.payments b (ground arith) (ground arith)) h)
  record_payment-agrees id actor request PaymentStatus.pending ha h =
      let row = payment_row id actor request PaymentStatus.pending in
      all-same db.payments (db.payments ++ row ∷ []) db.bills
        (λ b. agrees-append row db.payments b (ground arith) (ground arith)) h
  record_payment-agrees id actor request PaymentStatus.rejected ha h =
      let row = payment_row id actor request PaymentStatus.rejected in
      all-same db.payments (db.payments ++ row ∷ []) db.bills
        (λ b. agrees-append row db.payments b (ground arith) (ground arith)) h

  -- The bills stay in agreement with the payments under `POST /api/payments`, whatever it answers.
  pub handle_payment-agrees :
      (id : Key) (actor : Actor) (request : PaymentRequest)
      → all (has_amount amount) db.bills ≡ true
      → all (agrees db.payments) db.bills ≡ true
      → all
          (agrees (handle_payment id actor request db).0.payments)
          (handle_payment id actor request db).0.bills
        ≡ true
  unfolding handle_payment
  handle_payment-agrees id actor request ha h = ground (
    arith,
    record_payment-agrees id actor request PaymentStatus.pending ha h,
    record_payment-agrees id actor request PaymentStatus.approved ha h,
  )

  -- The rows that a review changes had no part in a sum, and have one at most in that of `bill`.
  reviewed-sums :
      (reviewer id : Key) (accept : Bool) (bill : Key) (b : Bill)
      → all
          (λ q. not (q.id == id) || q.id == id && is_pending q.status && q.bill_id == bill)
          db.payments
        ≡ true
      → (accept && b.id == bill) ≡ false
      → agrees (update (λ q. q.id == id) (review_row reviewer (verdict accept)) db.payments) b
        ≡ agrees db.payments b
  reviewed-sums reviewer id accept bill b only k =
      let found : Payment → Bool = λ q. q.id == id && is_pending q.status && q.bill_id == bill in
      let f : Payment → Payment = review_row reviewer (verdict accept) in
      agrees-same db.payments (update (λ q. q.id == id) f db.payments) b
        (total-update (received_term b.id) (λ q. q.id == id) found f db.payments
          (λ x h. ground arith) only)
        (total-update (returned_term b.id) (λ q. q.id == id) found f db.payments
          (λ x h. ground arith) only)

  only_reviewed :
      (id : Key) (p : Payment)
      → count (λ q. q.id == id) db.payments ≤ 1
      → first (λ q. q.id == id && is_pending q.status) db.payments ≡ some p
      → all
          (λ q. not (q.id == id) || q.id == id && is_pending q.status && q.bill_id == p.bill_id)
          db.payments
        ≡ true
  only_reviewed id p few found =
      keyed-only (λ q. q.id == id && is_pending q.status && q.bill_id == p.bill_id)
        (λ q. q.id == id) db.payments (λ x h. ground arith)
        (first-with (λ q. q.id == id && is_pending q.status) (λ q. q.bill_id == p.bill_id)
          db.payments p found (==_refl p.bill_id))
        few

  review_found-agrees :
      (reviewer id : Key) (accept : Bool) (o : Option Payment)
      → count (λ q. q.id == id) db.payments ≤ 1
      → first (λ q. q.id == id && is_pending q.status) db.payments ≡ o
      → all (has_amount amount) db.bills ≡ true
      → all (agrees db.payments) db.bills ≡ true
      → (let after = (review_found reviewer id accept o db).0 in
          all (agrees after.payments) after.bills)
        ≡ true
  review_found-agrees reviewer id accept none few found ha h = h
  review_found-agrees reviewer id true (some p) few found ha h =
      let after =
        update (λ q. q.id == id) (review_row reviewer PaymentStatus.approved) db.payments in
      reconcile_bill-agrees amount p.bill_id (record db { payments = after }) ha
        (all-elsewhere p.bill_id db.payments after db.bills
          (λ b k. reviewed-sums reviewer id true p.bill_id b (only_reviewed id p few found) k) h)
  review_found-agrees reviewer id false (some p) few found ha h =
      all-same db.payments
        (update (λ q. q.id == id) (review_row reviewer PaymentStatus.rejected) db.payments) db.bills
        (λ b. reviewed-sums reviewer id false p.bill_id b (only_reviewed id p few found) refl) h

  -- The bills stay in agreement with the payments under `PATCH /api/payments/:id/review`.
  pub handle_review-agrees :
      (actor : Actor) (id : Key) (accept : Bool)
      → count (λ q. q.id == id) db.payments ≤ 1
      → all (has_amount amount) db.bills ≡ true
      → all (agrees db.payments) db.bills ≡ true
      → all
          (agrees (handle_review actor id accept db).0.payments)
          (handle_review actor id accept db).0.bills
        ≡ true
  unfolding handle_review
  handle_review-agrees actor id accept few ha h = ground (
    arith,
    review_found-agrees actor.id id accept
        (first (λ q. q.id == id && is_pending q.status) db.payments) few refl ha h,
  )
