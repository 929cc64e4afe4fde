-- ===== src/Billing.antt =====
-- Bills and payments of src/index.ts: `reconcileBill`, `saveImportJob`, and the routes `POST /api/payments`
-- and `PATCH /api/payments/:id/review`. Amounts are minor units, dates are days. Receipts, methods, proofs
-- and notes are left out.
pub mod Reconciled
pub mod Run
pub mod Tests
use estatemate_minmoe.Prelude.{
  ℕ, ◌+◌, ◌*◌, Bool, true, false, not, ◌&&◌, ◌||◌, Option, none, some, List, [], ◌∷◌, ◌++◌, ◌==◌,
  ltb, leb, if◌then◌else◌, any, update, first, total,
}
use estatemate_minmoe.Prelude.Text.{Text}
use estatemate_minmoe.Hardware.{Key}

pub data BillStatus : Type 0 where
  unpaid partial paid void : BillStatus

-- `status IN ('unpaid','partial')`
abbrev pub is_owed : BillStatus → Bool
is_owed unpaid = true
is_owed partial = true
is_owed _ = false

-- The columns of `bills`, but for `created_at`.
pub record Bill : Type 0 where
  pub id : Key
  pub property_id : Option Key
  pub resident_id : Key
  pub amount_minor : ℕ
  pub currency : Text
  pub due_date : ℕ
  pub status : BillStatus
  pub bill_type : Text
  pub description : Text

pub data PaymentType : Type 0 where
  payment refund adjustment : PaymentType

pub data PaymentStatus : Type 0 where
  pending approved rejected : PaymentStatus

abbrev pub is_refund : PaymentType → Bool
is_refund refund = true
is_refund _ = false

abbrev pub is_pending : PaymentStatus → Bool
is_pending PaymentStatus.pending = true
is_pending _ = false

abbrev pub is_approved : PaymentStatus → Bool
is_approved PaymentStatus.approved = true
is_approved _ = false

-- The columns of `payments` that the sums and the routes read.
pub record Payment : Type 0 where
  pub id : Key
  pub bill_id : Key
  pub amount_minor : ℕ
  pub type : PaymentType
  pub status : PaymentStatus
  pub recorded_by : Key
  pub reviewed_by : Option Key

pub record Db : Type 0 where
  pub bills : List Bill
  pub payments : List Payment

-- `p.bill_id=b.id AND p.status='approved'`
abbrev pub counts_for : Key → Payment → Bool
counts_for bill p = p.bill_id == bill && is_approved p.status

-- The positive and the negative terms of the sum `paid`.
abbrev pub received_term : Key → Payment → ℕ
received_term bill p = if counts_for bill p && not (is_refund p.type) then p.amount_minor else 0

abbrev pub returned_term : Key → Payment → ℕ
returned_term bill p = if counts_for bill p && is_refund p.type then p.amount_minor else 0

abbrev pub received : Key → List Payment → ℕ
received bill = total (received_term bill)

abbrev pub returned : Key → List Payment → ℕ
returned bill = total (returned_term bill)

-- `row.paid >= row.amount_minor ? 'paid' : row.paid > 0 ? 'partial' : 'unpaid'`
unfoldable pub status_for : ℕ → ℕ → ℕ → BillStatus
status_for amount received returned =
    if leb (amount + returned) received
    then BillStatus.paid
    else if ltb returned received
    then BillStatus.partial
    else BillStatus.unpaid

abbrev pub set_status : BillStatus → Bill → Bill
set_status status b = record b { status = status }

abbrev pub reconcile_found : Key → Option Bill → Db → Db
reconcile_found id none db = db
reconcile_found id (some b) db = record db {
  bills =
      update (λ c. c.id == id)
        (set_status (status_for b.amount_minor (received id db.payments) (returned id db.payments)))
        db.bills;
}

-- `reconcileBill`
unfoldable pub reconcile_bill : Key → Db → Db
reconcile_bill id db = reconcile_found id (first (λ b. b.id == id) db.bills) db

pub data Role : Type 0 where
  admin manager security cashier resident : Role

abbrev pub is_resident : Role → Bool
is_resident Role.resident = true
is_resident _ = false

-- `requireRoles('resident', 'cashier', 'admin')` and `requireRoles('cashier', 'admin')`
abbrev pub may_pay : Role → Bool
may_pay Role.resident = true
may_pay Role.cashier = true
may_pay Role.admin = true
may_pay _ = false

abbrev pub may_review : Role → Bool
may_review r = may_pay r && not (is_resident r)

pub record Actor : Type 0 where
  pub id : Key
  pub role : Role

-- What a caller of `POST /api/payments` sends, with a known method; an amount of 0 is refused as missing.
pub record PaymentRequest : Type 0 where
  pub bill_id : Key
  pub amount_minor : ℕ

pub data Answer : Type 0 where
  forbidden missing_fields not_own_bill no_such_bill not_found : Answer
  recorded : PaymentStatus → Answer
  reviewed : Answer

abbrev pub payment_row : Key → Actor → PaymentRequest → PaymentStatus → Payment
payment_row id actor request status = record {
  id = id;
  bill_id = request.bill_id;
  amount_minor = request.amount_minor;
  type = PaymentType.payment;
  status = status;
  recorded_by = actor.id;
  reviewed_by = if is_approved status then some actor.id else none;
}

abbrev pub record_payment : Key → Actor → PaymentRequest → PaymentStatus → Db → Db
record_payment id actor request status db =
    let added = record db { payments = db.payments ++ payment_row id actor request status ∷ [] } in
    if is_approved status then reconcile_bill request.bill_id added else added

-- `POST /api/payments`: a resident's payment waits for review, an office's counts at once.
-- `bill_id` references `bills`, so that the INSERT fails without the bill.
unfoldable pub handle_payment : Key → Actor → PaymentRequest → Db → Db × Answer
handle_payment id actor request db =
    let status = if is_resident actor.role then PaymentStatus.pending else PaymentStatus.approved in
    if not (may_pay actor.role)
    then (db, forbidden)
    else if request.amount_minor == 0
    then (db, missing_fields)
    else if is_resident actor.role
        && not (any (λ b. b.id == request.bill_id && b.resident_id == actor.id) db.bills)
    then (db, not_own_bill)
    else if not (any (λ b. b.id == request.bill_id) db.bills)
    then (db, no_such_bill)
    else (record_payment id actor request status db, recorded status)

abbrev pub review_row : Key → PaymentStatus → Payment → Payment
review_row reviewer status p = record p { status = status; reviewed_by = some reviewer }

-- `status must be approved or rejected`
abbrev pub verdict : Bool → PaymentStatus
verdict true = PaymentStatus.approved
verdict false = PaymentStatus.rejected

abbrev pub review_found : Key → Key → Bool → Option Payment → Db → Db × Answer
review_found reviewer id accept none db = (db, not_found)
review_found reviewer id accept (some p) db =
    let after = record db {
      payments = update (λ q. q.id == id) (review_row reviewer (verdict accept)) db.payments;
    } in
    (if accept then reconcile_bill p.bill_id after else after, reviewed)

-- `PATCH /api/payments/:id/review`
unfoldable pub handle_review : Actor → Key → Bool → Db → Db × Answer
handle_review actor id accept db =
    if may_review actor.role
    then review_found actor.id id accept
        (first (λ p. p.id == id && is_pending p.status) db.payments) db
    else (db, forbidden)

pub data ImportStatus : Type 0 where
  failed completed_with_errors completed : ImportStatus

-- The status that `saveImportJob` stores.
unfoldable pub import_status : ℕ → ℕ → ImportStatus
import_status successful errors =
    if successful == 0 && not (errors == 0)
    then failed
    else if not (errors == 0)
    then completed_with_errors
    else completed
