-- ===== src/Booking.antt =====
-- Facility bookings of src/index.ts: the tables, `bookingOverlapId`, `raiseFacilityBookingBill` and
-- `attachFacilityBookingBill`. Instants are milliseconds, as `toISOString` keeps them, and `datetime(…)`
-- of the queries drops their fraction of a second. Purposes, telephone numbers and notes are left out;
-- `iso` is `toISOString`.
pub mod Request
pub mod Decide
pub mod Disjoint
pub mod Apart
pub mod Run
pub mod Tests
use estatemate_minmoe.Prelude.{
  ℕ, ◌+◌, ◌*◌, ◌/◌, Bool, true, false, not, ◌&&◌, ◌||◌, Option, none, some, List, [], ◌∷◌, ◌++◌,
  ◌==◌, ltb, leb, if◌then◌else◌, any, first, update, take,
}
use estatemate_minmoe.Prelude.Text.{Text, lit}
use estatemate_minmoe.Hardware.{Key}
use estatemate_minmoe.Billing.{Bill, BillStatus}
use estatemate_minmoe.Tenure.{Holdings}

-- A row of `facilities`, as far as bookings read it.
pub record Facility : Type 0 where
  pub id : Key
  pub name : Text
  pub capacity : Option ℕ
  pub hourly_rate_minor : ℕ
  pub deposit_minor : ℕ
  pub currency : Text
  pub requires_approval : Bool
  pub requires_payment : Bool
  pub min_notice_hours : ℕ
  pub max_hours_per_booking : ℕ
  pub is_active : Bool

pub data BookingStatus : Type 0 where
  pending approved declined cancelled completed : BookingStatus

pub data PaymentState : Type 0 where
  not_required unpaid paid waived : PaymentState

-- A row of `facility_bookings`.
pub record Booking : Type 0 where
  pub id : Key
  pub facility_id : Key
  pub requester_id : Key
  pub property_id : Option Key
  pub starts_at : ℕ
  pub ends_at : ℕ
  pub attendees : Option ℕ
  pub status : BookingStatus
  pub estimated_cost_minor : ℕ
  pub deposit_minor : ℕ
  pub bill_id : Option Key
  pub payment_status : PaymentState
  pub decided_by : Option Key
  pub decided_at : Option ℕ
  pub cancelled_by : Option Key
  pub cancelled_at : Option ℕ

pub record Db : Type 0 where
  pub facilities : List Facility
  pub bookings : List Booking
  pub bills : List Bill
  pub holdings : Holdings
  pub drawn : ℕ

-- `status IN ('pending','approved')`
abbrev pub holds_window : BookingStatus → Bool
holds_window BookingStatus.pending = true
holds_window BookingStatus.approved = true
holds_window _ = false

abbrev pub is_pending : BookingStatus → Bool
is_pending BookingStatus.pending = true
is_pending _ = false

-- `? IS NULL OR id<>?`
abbrev pub is_other : Option Key → Booking → Bool
is_other none b = true
is_other (some k) b = not (b.id == k)

-- `datetime(ends_at)>datetime(?) AND datetime(starts_at)<datetime(?)`
abbrev pub overlaps : ℕ → ℕ → Booking → Bool
overlaps starts ends b =
    ltb (starts / 1000) (b.ends_at / 1000) && ltb (b.starts_at / 1000) (ends / 1000)

-- `bookingOverlapId`, as far as there is one
unfoldable pub has_booking_overlap : Key → ℕ → ℕ → Option Key → List Booking → Bool
has_booking_overlap facility starts ends exclude = any (λ b.
    b.facility_id == facility
    && holds_window b.status
    && overlaps starts ends b
    && is_other exclude b)

abbrev pub find_facility : Key → List Facility → Option Facility
find_facility id = first (λ f. f.id == id)

abbrev deposit_note : ℕ → Text
deposit_note deposit = if deposit == 0 then [] else lit " — includes refundable deposit"

-- `booking.currency || 'NGN'`
abbrev currency_of : Facility → Text
currency_of f = elim f.currency [ [] ↦ lit "NGN" | c ∷ s ↦ f.currency ]

abbrev pub booking_bill : (ℕ → Text) → ℕ → Key → Facility → Booking → Bill
booking_bill iso now id f b = record {
  id = id;
  property_id = b.property_id;
  resident_id = b.requester_id;
  amount_minor = b.estimated_cost_minor + b.deposit_minor;
  currency = currency_of f;
  due_date = now / 86400000 + 7;
  status = BillStatus.unpaid;
  bill_type = lit "facility_booking";
  description =
      lit "Facility booking: "
      ++ f.name
      ++ lit " ("
      ++ take 10 (iso b.starts_at)
      ++ lit ")"
      ++ deposit_note b.deposit_minor;
}

abbrev pub set_booking : Key → (Booking → Booking) → Db → Db
set_booking id f db = record db { bookings = update (λ b. b.id == id) f db.bookings }

module _ (iso : ℕ → Text) (uuid : ℕ → Key) (now : ℕ) where
  -- `raiseFacilityBookingBill`, and `attachFacilityBookingBill` with the bill, as all callers do
  abbrev pub bill_booking : Facility → Booking → Db → Db × Option Key
  bill_booking f b db =
      if b.estimated_cost_minor + b.deposit_minor == 0
      then (
        set_booking b.id (λ x. record x { payment_status = PaymentState.not_required }) db,
        none,
      )
      else (
        record (set_booking b.id
            (λ x. record x { bill_id = some (uuid db.drawn); payment_status = PaymentState.unpaid })
            db) {
              bills = db.bills ++ booking_bill iso now (uuid db.drawn) f b ∷ [];
              drawn = db.drawn + 1;
            },
        some (uuid db.drawn),
      )

  -- The booking is read again, with its facility.
  abbrev pub bill_found : Option Facility → Option Booking → Db → Db × Option Key
  bill_found (some f) (some b) db = bill_booking f b db
  bill_found _ _ db = (db, none)
