-- ===== src/Booking/Apart/Decided.antt =====
-- `PATCH /api/facility-bookings/:id` of src/index.ts keeps the bookings apart.
use estatemate_minmoe.Prelude.{
  ℕ, ◌+◌, true, not, ◌&&◌, ◌||◌, Option, none, some, ◌==◌, all, first, ◌≡◌, refl, sym, subst, arith,
  inl, inr, Bool-cases, if-either, keyed-only, first-with, first-holds, ==_iff, if◌then◌else◌,
}
use estatemate_minmoe.Prelude.Text.{Text}
use estatemate_minmoe.Hardware.{Key, is_null}
use estatemate_minmoe.Billing.{Actor}
use estatemate_minmoe.Booking.{
  Booking, BookingStatus, Facility, Db, is_pending, holds_window, has_booking_overlap, set_booking,
}
use estatemate_minmoe.Booking.Decide.{
  Action, as_cancelled, as_decided, as_waived, void_bill, cancel_booking, waive_booking,
  bill_approved, approve_booking, decline_booking, decide_booking, decide_asked, decide_joined,
  decide_found, approve, decline, cancel, waive_payment, not_allowed, already_decided,
  handle_booking_action, is_estate_operator, may_waive,
}
use estatemate_minmoe.Booking.Decide
use estatemate_minmoe.Booking.Apart.{
  IsApart, set-IsApart, set_any-IsApart, void-IsApart, bill_found-IsApart,
}

module _ (iso : ℕ → Text) (uuid : ℕ → Key) (now : ℕ) (actor : Actor) where
  cancel-IsApart :
      (b : Booking) (db : Db) → IsApart db → IsApart (cancel_booking iso uuid now actor b db).0
  cancel-IsApart b db h =
      if-either {A = Db × Decide.Answer} (λ r. IsApart r.0)
        (not (b.requester_id == actor.id) && not (is_estate_operator actor.role)) h
        (if-either {A = Db × Decide.Answer} (λ r. IsApart r.0) (not (holds_window b.status)) h
          (void-IsApart b b.bill_id (set_booking b.id (as_cancelled actor.id now) db) (
            set_any-IsApart b.id (as_cancelled actor.id now) db
              (record {
                facility = λ x. refl;
                starts = λ x. refl;
                ends = λ x. refl;
                window = λ x k w. ground arith;
              })
              (λ x. refl) h)))

  waive-IsApart :
      (b : Booking) (db : Db) → IsApart db → IsApart (waive_booking iso uuid now actor b db).0
  waive-IsApart b db h =
      if-either {A = Db × Decide.Answer} (λ r. IsApart r.0) (may_waive actor.role)
        (set_any-IsApart b.id as_waived db
          (record {
            facility = λ x. refl;
            starts = λ x. refl;
            ends = λ x. refl;
            window = λ x k w. w;
          })
          (λ x. refl) h)
        h

  bill_approved-IsApart :
      (f : Facility) (b : Booking) (db : Db)
      → IsApart db
      → IsApart (bill_approved iso uuid now actor f b db).0
  bill_approved-IsApart f b db h =
      if-either {A = Db × Decide.Answer} (λ r. IsApart r.0)
        (is_null b.bill_id
          && f.requires_payment
          && not (b.estimated_cost_minor + b.deposit_minor == 0))
        (bill_found-IsApart iso uuid now (some f) (first (λ x. x.id == b.id) db.bookings) db h) h

  -- The one booking under its id, when it is pending.
  only_pending :
      (id : Key) (b : Booking) (db : Db)
      → first (λ x. x.id == id) db.bookings ≡ some b
      → is_pending b.status ≡ true
      → IsApart db
      → all (λ x. not (x.id == id) || x.id == id && is_pending x.status) db.bookings ≡ true
  only_pending id b db found waits h =
      keyed-only (λ x. x.id == id && is_pending x.status) (λ x. x.id == id) db.bookings
        (λ x k. ground arith)
        (first-with (λ x. x.id == id) (λ x. is_pending x.status) db.bookings b found waits)
        (h.ids id)

  decided-IsApart :
      (status : BookingStatus) (b : Booking) (db : Db)
      → first (λ x. x.id == b.id) db.bookings ≡ some b
      → is_pending b.status ≡ true
      → IsApart db
      → IsApart (set_booking b.id (as_decided status actor.id now) db)
  decided-IsApart status b db found waits h =
      set-IsApart (λ x. x.id == b.id && is_pending x.status) b.id (as_decided status actor.id now)
        db
        (record {
          facility = λ x. refl;
          starts = λ x. refl;
          ends = λ x. refl;
          window = λ x k w. ground arith;
        })
        (λ x. refl) (only_pending b.id b db found waits h) h

  approve-IsApart :
      (f : Facility) (b : Booking) (db : Db)
      → first (λ x. x.id == b.id) db.bookings ≡ some b
      → is_pending b.status ≡ true
      → IsApart db
      → IsApart (approve_booking iso uuid now actor f b db).0
  approve-IsApart f b db found waits h =
      if-either {A = Db × Decide.Answer} (λ r. IsApart r.0)
        (has_booking_overlap b.facility_id b.starts_at b.ends_at (some b.id) db.bookings) h
        (bill_approved-IsApart f b
          (set_booking b.id (as_decided BookingStatus.approved actor.id now) db)
          (decided-IsApart BookingStatus.approved b db found waits h))

  -- What an operator decides on a pending booking.
  pending-IsApart :
      (b : Booking) (db : Db) (go : Db × Decide.Answer)
      → IsApart db
      → (is_pending b.status ≡ true → IsApart go.0)
      → IsApart
          (if not (is_estate_operator actor.role)
            then (db, not_allowed)
            else if is_pending b.status
            then go
            else (db, already_decided)).0
  pending-IsApart b db go h k =
      if-either {A = Db × Decide.Answer} (λ r. IsApart r.0) (not (is_estate_operator actor.role)) h
        (elim (Bool-cases (is_pending b.status)) [
          | inl waits ↦ rw waits (k waits)
          | inr gone ↦ rw gone h
        ])

  decide-IsApart :
      (action : Action) (f : Facility) (b : Booking) (db : Db)
      → first (λ x. x.id == b.id) db.bookings ≡ some b
      → IsApart db
      → IsApart (decide_booking iso uuid now actor action f b db).0
  decide-IsApart cancel f b db found h = cancel-IsApart b db h
  decide-IsApart waive_payment f b db found h = waive-IsApart b db h
  decide-IsApart approve f b db found h =
      pending-IsApart b db (approve_booking iso uuid now actor f b db) h
        (λ waits. approve-IsApart f b db found waits h)
  decide-IsApart decline f b db found h =
      pending-IsApart b db (decline_booking iso uuid now actor b db) h
        (λ waits. decided-IsApart BookingStatus.declined b db found waits h)

  joined-IsApart :
      (action : Option Action) (b : Booking) (f : Option Facility) (db : Db)
      → first (λ x. x.id == b.id) db.bookings ≡ some b
      → IsApart db
      → IsApart (decide_joined iso uuid now actor action b f db).0
  joined-IsApart action b none db found h = h
  joined-IsApart none b (some f) db found h = h
  joined-IsApart (some action) b (some f) db found h = decide-IsApart action f b db found h

  found-IsApart :
      (action : Option Action) (id : Key) (o : Option Booking) (db : Db)
      → first (λ b. b.id == id) db.bookings ≡ o
      → IsApart db
      → IsApart (decide_found iso uuid now actor action o db).0
  found-IsApart action id none db found h = h
  found-IsApart action id (some b) db found h =
      let same : b.id ≡ id =
        (==_iff b.id id).0 (first-holds (λ x. x.id == id) db.bookings b found) in
      joined-IsApart action b _ db
        (subst (λ k. first (λ x. x.id == k) db.bookings ≡ some b) (sym same) found) h

  -- A decision keeps the bookings apart, whatever it answers.
  pub handle_booking_action-IsApart :
      (id : Key) (action : Option Action) (db : Db)
      → IsApart db
      → IsApart (handle_booking_action iso uuid now actor id action db).0
  unfolding handle_booking_action
  handle_booking_action-IsApart id action db h =
      found-IsApart action id (first (λ b. b.id == id) db.bookings) db refl h
