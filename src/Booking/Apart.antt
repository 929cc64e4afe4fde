-- ===== src/Booking/Apart.antt =====
-- Bookings of src/index.ts that are apart stay apart when their rows change.
pub mod Requested
pub mod Decided
use estatemate_minmoe.Prelude.{
  ℕ, ◌+◌, ◌≤◌, Bool, true, false, not, ◌&&◌, ◌||◌, Option, none, some, List, [], ◌∷◌, ◌++◌, ◌==◌,
  all, any, first, update, count, ◌≡◌, refl, sym, ap, ◌∙◌, subst, arith, inl, inr, Bool-cases,
  Option-cases, ==_refl, if-either, fresh-keys, keyed-only, first-with, first-holds, ==_iff,
  if◌then◌else◌, count-update_same,
}
use estatemate_minmoe.Prelude.Text.{Text}
use estatemate_minmoe.Hardware.{Key, is_null}
use estatemate_minmoe.Billing.{Actor}
use estatemate_minmoe.Booking.{
  Booking, BookingStatus, PaymentState, Facility, Db, is_pending, holds_window, has_booking_overlap,
  set_booking, bill_booking, bill_found,
}
use estatemate_minmoe.Booking.Request.{
  Body, Read, Refusal, new_booking, refusal_for, insert_booking, request_read, request_for,
  request_fields, request_booking, may_request, charges,
}
use estatemate_minmoe.Booking.Decide.{
  Action, as_cancelled, as_decided, as_waived, void_bill, cancel_booking, waive_booking,
  bill_approved, approve_booking, decline_booking, decide_booking, decide_asked, decide_joined,
  decide_found, approve, decline, cancel, waive_payment, not_allowed, already_decided,
  handle_booking_action, is_estate_operator, may_waive,
}
use estatemate_minmoe.Booking.Disjoint.{are_disjoint, Narrows, disjoint-update, disjoint-append}
use estatemate_minmoe.Booking.Request
use estatemate_minmoe.Booking.Decide

-- No two bookings own one window, and ids are ids.
pub record IsApart (db : Db) : Type 0 where
  pub apart : are_disjoint db.bookings ≡ true
  pub ids : (k : Key) → count (λ b. b.id == k) db.bookings ≤ 1

all-trivial : (q : Booking → Bool) (xs : List Booking) → all (λ x. not (q x) || q x) xs ≡ true
all-trivial q [] = refl
all-trivial q (x ∷ xs) = ground (arith, all-trivial q xs)

pub set-IsApart :
    (found : Booking → Bool) (id : Key) (f : Booking → Booking) (db : Db)
    → Narrows found f
    → ((x : Booking) → (f x).id ≡ x.id)
    → all (λ x. not (x.id == id) || found x) db.bookings ≡ true
    → IsApart db
    → IsApart (set_booking id f db)
set-IsApart found id f db narrows key only h = record {
  apart = disjoint-update found (λ b. b.id == id) f narrows db.bookings only h.apart;
  ids = λ k.
      subst (λ n. n ≤ 1)
        (sym (
          count-update_same (λ b. b.id == k) (λ b. b.id == id) f db.bookings
            (λ x. ap (λ i. i == k) (key x))))
        (h.ids k);
}

-- A change that leaves the status as it is, or ends the booking.
pub set_any-IsApart :
    (id : Key) (f : Booking → Booking) (db : Db)
    → Narrows (λ x. x.id == id) f
    → ((x : Booking) → (f x).id ≡ x.id)
    → IsApart db
    → IsApart (set_booking id f db)
set_any-IsApart id f db narrows key h =
    set-IsApart (λ x. x.id == id) id f db narrows key (all-trivial (λ x. x.id == id) db.bookings) h

pub void-IsApart :
    (b : Booking) (o : Option Key) (db : Db) → IsApart db → IsApart (void_bill b o db)
void-IsApart b none db h = h
void-IsApart b (some bill) db h =
    set_any-IsApart b.id as_waived (record db { bills = _ })
      (record { facility = λ x. refl; starts = λ x. refl; ends = λ x. refl; window = λ x k w. w })
      (λ x. refl) (record { apart = h.apart; ids = h.ids })

module _ (iso : ℕ → Text) (uuid : ℕ → Key) (now : ℕ) where
  pub bill_booking-IsApart :
      (f : Facility) (b : Booking) (db : Db)
      → IsApart db
      → IsApart (bill_booking iso uuid now f b db).0
  bill_booking-IsApart f b db h =
      if-either {A = Db × Option Key} (λ r. IsApart r.0)
        (b.estimated_cost_minor + b.deposit_minor == 0)
        (set_any-IsApart b.id (λ x. record x { payment_status = PaymentState.not_required }) db
          (record {
            facility = λ x. refl;
            starts = λ x. refl;
            ends = λ x. refl;
            window = λ x k w. w;
          })
          (λ x. refl) h)
        (let set =
            set_any-IsApart b.id
              (λ x. record x {
                bill_id = some (uuid db.drawn);
                payment_status = PaymentState.unpaid;
              })
              db
              (record {
                facility = λ x. refl;
                starts = λ x. refl;
                ends = λ x. refl;
                window = λ x k w. w;
              })
              (λ x. refl) h in
          record { apart = set.apart; ids = set.ids })

  pub bill_found-IsApart :
      (f : Option Facility) (b : Option Booking) (db : Db)
      → IsApart db
      → IsApart (bill_found iso uuid now f b db).0
  bill_found-IsApart (some f) (some b) db h = bill_booking-IsApart f b db h
  bill_found-IsApart (some f) none db h = h
  bill_found-IsApart none o db h = h
