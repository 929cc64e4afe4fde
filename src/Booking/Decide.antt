-- ===== src/Booking/Decide.antt =====
-- The route `PATCH /api/facility-bookings/:id` of src/index.ts: bookings are cancelled, approved and
-- declined, and fees waived.
use estatemate_minmoe.Prelude.{
  ℕ, ◌+◌, Bool, true, false, not, ◌&&◌, Option, none, some, ◌==◌, if◌then◌else◌, first, update,
}
use estatemate_minmoe.Prelude.Text.{Text}
use estatemate_minmoe.Hardware.{Key, is_null}
use estatemate_minmoe.Billing.{BillStatus, is_owed, Actor, Role, set_status}
use estatemate_minmoe.Booking.{
  Facility, Booking, BookingStatus, PaymentState, Db, holds_window, is_pending, has_booking_overlap,
  find_facility, set_booking, bill_found,
}

-- `none` stands for anything else that is sent.
pub data Action : Type 0 where
  approve decline cancel waive_payment : Action

pub data Answer : Type 0 where
  not_found invalid_action not_allowed not_open already_decided window_taken : Answer
  cancelled waived declined : Answer
  approved : Option Key → Answer

-- `isEstateOperator`
abbrev pub is_estate_operator : Role → Bool
is_estate_operator Role.admin = true
is_estate_operator Role.manager = true
is_estate_operator _ = false

-- `['admin','cashier'].includes(user.role)`
abbrev pub may_waive : Role → Bool
may_waive Role.admin = true
may_waive Role.cashier = true
may_waive _ = false

abbrev pub as_cancelled : Key → ℕ → Booking → Booking
as_cancelled actor now b = record b {
  status = BookingStatus.cancelled;
  cancelled_at = some now;
  cancelled_by = some actor;
}

abbrev pub as_decided : BookingStatus → Key → ℕ → Booking → Booking
as_decided status actor now b = record b {
  status = status;
  decided_by = some actor;
  decided_at = some now;
}

abbrev pub as_waived : Booking → Booking
as_waived b = record b { payment_status = PaymentState.waived }

-- The bill of a cancelled booking is void while it is owed, and the fee is waived.
abbrev pub void_bill : Booking → Option Key → Db → Db
void_bill b none db = db
void_bill b (some bill) db = set_booking b.id as_waived (record db {
  bills = update (λ l. l.id == bill && is_owed l.status) (set_status BillStatus.void) db.bills;
})

module _ (iso : ℕ → Text) (uuid : ℕ → Key) (now : ℕ) (actor : Actor) where
  abbrev pub cancel_booking : Booking → Db → Db × Answer
  cancel_booking b db =
      if not (b.requester_id == actor.id) && not (is_estate_operator actor.role)
      then (db, not_allowed)
      else if not (holds_window b.status)
      then (db, not_open)
      else (void_bill b b.bill_id (set_booking b.id (as_cancelled actor.id now) db), cancelled)

  abbrev pub waive_booking : Booking → Db → Db × Answer
  waive_booking b db =
      if may_waive actor.role then (set_booking b.id as_waived db, waived) else (db, not_allowed)

  abbrev pub bill_approved : Facility → Booking → Db → Db × Answer
  bill_approved f b db =
      if is_null b.bill_id
        && f.requires_payment
        && not (b.estimated_cost_minor + b.deposit_minor == 0)
      then (let billed =
            bill_found iso uuid now (some f) (first (λ x. x.id == b.id) db.bookings) db in
          (billed.0, approved billed.1))
      else (db, approved b.bill_id)

  abbrev pub approve_booking : Facility → Booking → Db → Db × Answer
  approve_booking f b db =
      if has_booking_overlap b.facility_id b.starts_at b.ends_at (some b.id) db.bookings
      then (db, window_taken)
      else bill_approved f b (set_booking b.id (as_decided BookingStatus.approved actor.id now) db)

  abbrev pub decline_booking : Booking → Db → Db × Answer
  decline_booking b db =
      (set_booking b.id (as_decided BookingStatus.declined actor.id now) db, declined)

  abbrev pub decide_booking : Action → Facility → Booking → Db → Db × Answer
  decide_booking cancel f b db = cancel_booking b db
  decide_booking waive_payment f b db = waive_booking b db
  decide_booking approve f b db =
      if not (is_estate_operator actor.role)
      then (db, not_allowed)
      else if is_pending b.status
      then approve_booking f b db
      else (db, already_decided)
  decide_booking decline f b db =
      if not (is_estate_operator actor.role)
      then (db, not_allowed)
      else if is_pending b.status
      then decline_booking b db
      else (db, already_decided)

  abbrev pub decide_asked : Option Action → Facility → Booking → Db → Db × Answer
  decide_asked none f b db = (db, invalid_action)
  decide_asked (some action) f b db = decide_booking action f b db

  -- A booking is read with `JOIN facilities`.
  abbrev pub decide_joined : Option Action → Booking → Option Facility → Db → Db × Answer
  decide_joined action b none db = (db, not_found)
  decide_joined action b (some f) db = decide_asked action f b db

  abbrev pub decide_found : Option Action → Option Booking → Db → Db × Answer
  decide_found action none db = (db, not_found)
  decide_found action (some b) db =
      decide_joined action b (find_facility b.facility_id db.facilities) db

  -- `PATCH /api/facility-bookings/:id`
  unfoldable pub handle_booking_action : Key → Option Action → Db → Db × Answer
  handle_booking_action id action db = decide_found action (first (λ b. b.id == id) db.bookings) db
