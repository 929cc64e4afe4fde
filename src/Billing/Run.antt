-- ===== src/Billing/Run.antt =====
-- Runs of the two routes for payments of src/index.ts, one request after the other.
use estatemate_minmoe.Prelude.{
  ℕ, ◌≤◌, Bool, true, false, not, ◌&&◌, Option, none, some, [], ◌∷◌, ◌++◌, ◌==◌, all, any, update,
  first, count, ◌≡◌, refl, sym, subst, if-either, all-update, count-update_same, fresh-keys,
}
use estatemate_minmoe.Hardware.{Key}
use estatemate_minmoe.Billing.{
  Bill, Payment, PaymentStatus, Db, Actor, PaymentRequest, set_status, reconcile_found,
  reconcile_bill, record_payment, handle_payment, review_found, handle_review, review_row,
  is_pending, payment_row, may_pay, is_resident, may_review, Answer,
}
use estatemate_minmoe.Billing.Reconciled.{agrees, has_amount}
use estatemate_minmoe.Billing.Reconciled.Steps.{handle_payment-agrees, handle_review-agrees}

-- A request that the server answers; the id of a new payment is fresh.
pub data Step (db : Db) : Db → Type 0 where
  pay :
      (id : Key) (actor : Actor) (request : PaymentRequest)
      → any (λ p. p.id == id) db.payments ≡ false
      → Step db (handle_payment id actor request db).0
  review : (actor : Actor) (id : Key) (accept : Bool) → Step db (handle_review actor id accept db).0

pub data Reachable (start : Db) : Db → Type 0 where
  begun : Reachable start start
  followed : {db next : Db} → Reachable start db → Step db next → Reachable start next

-- Bills agree with their payments, and keys are keys.
pub record IsSound (amount : Key → ℕ) (db : Db) : Type 0 where
  pub amounts : all (has_amount amount) db.bills ≡ true
  pub ids : (k : Key) → count (λ p. p.id == k) db.payments ≤ 1
  pub agree : all (agrees db.payments) db.bills ≡ true

module _ (amount : Key → ℕ) where
  amounts-reconcile_found :
      (id : Key) (o : Option Bill) (db : Db)
      → all (has_amount amount) db.bills ≡ true
      → all (has_amount amount) (reconcile_found id o db).bills ≡ true
  amounts-reconcile_found id none db h = h
  amounts-reconcile_found id (some b) db h =
      all-update (has_amount amount) (λ c. c.id == id) (set_status _) db.bills (λ x k l. k) h

  amounts-reconcile_bill :
      (id : Key) (db : Db)
      → all (has_amount amount) db.bills ≡ true
      → all (has_amount amount) (reconcile_bill id db).bills ≡ true
  unfolding reconcile_bill
  amounts-reconcile_bill id db h = amounts-reconcile_found id _ db h

payments-reconcile_found :
    (id : Key) (o : Option Bill) (db : Db) → (reconcile_found id o db).payments ≡ db.payments
payments-reconcile_found id none db = refl
payments-reconcile_found id (some b) db = refl

payments-reconcile_bill : (id : Key) (db : Db) → (reconcile_bill id db).payments ≡ db.payments
unfolding reconcile_bill
payments-reconcile_bill id db = payments-reconcile_found id _ db

payments-record_payment :
    (id : Key) (actor : Actor) (request : PaymentRequest) (status : PaymentStatus) (db : Db)
    → (record_payment id actor request status db).payments
      ≡ db.payments ++ payment_row id actor request status ∷ []
payments-record_payment id actor request PaymentStatus.approved db =
    payments-reconcile_bill request.bill_id _
payments-record_payment id actor request PaymentStatus.pending db = refl
payments-record_payment id actor request PaymentStatus.rejected db = refl

-- A payment that is refused changes nothing; another is recorded.
handle_payment-either :
    (id : Key) (actor : Actor) (request : PaymentRequest) (db : Db) (P : Db → Type 0)
    → P db
    → ((status : PaymentStatus) → P (record_payment id actor request status db))
    → P (handle_payment id actor request db).0
unfolding handle_payment
handle_payment-either id actor request db P kept changed =
    let Q : Db × Answer → Type 0 = λ r. P r.0 in
    if-either Q (not (may_pay actor.role)) kept (
      if-either Q (request.amount_minor == 0) kept (
        if-either Q
          (is_resident actor.role
            && not (any (λ b. b.id == request.bill_id && b.resident_id == actor.id) db.bills))
          kept (if-either Q (not (any (λ b. b.id == request.bill_id) db.bills)) kept (changed _))))

module _ (amount : Key → ℕ) (db : Db) (sound : IsSound amount db) where
  amounts-record_payment :
      (id : Key) (actor : Actor) (request : PaymentRequest) (status : PaymentStatus)
      → all (has_amount amount) (record_payment id actor request status db).bills ≡ true
  amounts-record_payment id actor request PaymentStatus.approved =
      amounts-reconcile_bill amount request.bill_id
        (record db {
          payments = db.payments ++ payment_row id actor request PaymentStatus.approved ∷ [];
        })
        sound.amounts
  amounts-record_payment id actor request PaymentStatus.pending = sound.amounts
  amounts-record_payment id actor request PaymentStatus.rejected = sound.amounts

  sound-record_payment :
      (id : Key) (actor : Actor) (request : PaymentRequest) (status : PaymentStatus)
      → any (λ p. p.id == id) db.payments ≡ false
      → all (has_amount amount) (record_payment id actor request status db).bills ≡ true
        × ((k : Key)
            → count (λ p. p.id == k) (record_payment id actor request status db).payments ≤ 1)
  sound-record_payment id actor request status fresh = (
    amounts-record_payment id actor request status,
    λ k.
        subst (λ ps. count (λ p. p.id == k) ps ≤ 1)
          (sym (payments-record_payment id actor request status db))
          (fresh-keys Payment.id (payment_row id actor request status) db.payments fresh sound.ids
            k),
  )

  IsSound-handle_payment :
      (id : Key) (actor : Actor) (request : PaymentRequest)
      → any (λ p. p.id == id) db.payments ≡ false
      → IsSound amount (handle_payment id actor request db).0
  IsSound-handle_payment id actor request fresh =
      let keys =
        handle_payment-either id actor request db
          (λ d.
            all (has_amount amount) d.bills ≡ true
            × ((k : Key) → count (λ p. p.id == k) d.payments ≤ 1))
          (sound.amounts, sound.ids)
          (λ status. sound-record_payment id actor request status fresh) in
      record {
        amounts = keys.0;
        ids = keys.1;
        agree = handle_payment-agrees amount db id actor request sound.amounts sound.agree;
      }

  sound-review_found :
      (reviewer id : Key) (accept : Bool) (o : Option Payment)
      → all (has_amount amount) (review_found reviewer id accept o db).0.bills ≡ true
        × ((k : Key) → count (λ p. p.id == k) (review_found reviewer id accept o db).0.payments ≤ 1)
  sound-review_found reviewer id accept none = (sound.amounts, sound.ids)
  sound-review_found reviewer id true (some p) =
      let after =
        update (λ q. q.id == id) (review_row reviewer PaymentStatus.approved) db.payments in
      (
        amounts-reconcile_bill amount p.bill_id (record db { payments = after }) sound.amounts,
        λ k.
            subst (λ ps. count (λ p. p.id == k) ps ≤ 1)
              (sym (payments-reconcile_bill p.bill_id (record db { payments = after })))
              (subst (λ n. n ≤ 1)
                (sym (
                  count-update_same (λ p. p.id == k) (λ q. q.id == id)
                    (review_row reviewer PaymentStatus.approved) db.payments (λ x. refl)))
                (sound.ids k)),
      )
  sound-review_found reviewer id false (some p) = (
    sound.amounts,
    λ k.
        subst (λ n. n ≤ 1)
          (sym (
            count-update_same (λ p. p.id == k) (λ q. q.id == id)
              (review_row reviewer PaymentStatus.rejected) db.payments (λ x. refl)))
          (sound.ids k),
  )

  keys-handle_review :
      (actor : Actor) (id : Key) (accept : Bool)
      → all (has_amount amount) (handle_review actor id accept db).0.bills ≡ true
        × ((k : Key) → count (λ p. p.id == k) (handle_review actor id accept db).0.payments ≤ 1)
  unfolding handle_review
  keys-handle_review actor id accept =
      if-either {A = Db × Answer}
        (λ r.
          all (has_amount amount) r.0.bills ≡ true
          × ((k : Key) → count (λ p. p.id == k) r.0.payments ≤ 1))
        (may_review actor.role)
        (sound-review_found actor.id id accept
          (first (λ p. p.id == id && is_pending p.status) db.payments))
        (sound.amounts, sound.ids)

  IsSound-handle_review :
      (actor : Actor) (id : Key) (accept : Bool)
      → IsSound amount (handle_review actor id accept db).0
  IsSound-handle_review actor id accept =
      let keys = keys-handle_review actor id accept in
      record {
        amounts = keys.0;
        ids = keys.1;
        agree =
            handle_review-agrees amount db actor id accept (sound.ids id) sound.amounts sound.agree;
      }

-- Along every run of requests that pay and requests that review, each bill that is not void has the
-- status that its approved payments give it: paid, partial or unpaid. To begin with this must hold, and
-- bills under one id must have one amount and payments under one id be one.
pub Reachable-IsSound :
    (amount : Key → ℕ) (start db : Db)
    → IsSound amount start
    → Reachable start db
    → IsSound amount db
Reachable-IsSound amount start _ sound begun = sound
Reachable-IsSound amount start _ sound (followed {db} before (pay id actor request fresh)) =
    IsSound-handle_payment amount db (Reachable-IsSound amount start db sound before) id actor
      request fresh
Reachable-IsSound amount start _ sound (followed {db} before (review actor id accept)) =
    IsSound-handle_review amount db (Reachable-IsSound amount start db sound before) actor id accept
