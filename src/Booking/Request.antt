-- ===== src/Booking/Request.antt =====
-- The route `POST /api/facility-bookings` of src/index.ts. `instant` is `parseEstateInstantMs` in the
-- estate's time zone (src/datetime.ts), which the model leaves open.
use estatemate_minmoe.Prelude.{
  ℕ, ◌+◌, ◌-◌, ◌*◌, ◌/◌, Bool, true, false, not, ◌&&◌, Option, none, some, [], ◌∷◌, ◌++◌, ◌==◌, ltb,
  leb, if◌then◌else◌, value_or,
}
use estatemate_minmoe.Prelude.Text.{Text}
use estatemate_minmoe.Hardware.{Key, is_null}
use estatemate_minmoe.Billing.{Actor, Role, is_resident}
use estatemate_minmoe.Tenure.{property_relationship, primary_resident_property_id}
use estatemate_minmoe.Booking.{
  Facility, Booking, BookingStatus, PaymentState, Db, has_booking_overlap, find_facility,
  bill_found,
}

-- `body.attendees`: left out or empty, a whole number, or something else.
pub data Attendees : Type 0 where
  unsaid unreadable : Attendees
  said : ℕ → Attendees

pub record Body : Type 0 where
  pub facility_id : Option Key
  pub property_id : Option Key
  pub starts_at : Option Text
  pub ends_at : Option Text
  pub attendees : Attendees
  pub requester_id : Option Key

pub data Refusal : Type 0 where
  role_refused fields_required facility_not_found unreadable_times ends_first : Refusal
  too_long too_far_ahead too_short_notice no_property not_occupied : Refusal
  bad_attendees too_many_attendees window_taken : Refusal

pub data Answer : Type 0 where
  refused : Refusal → Answer
  created : Key → BookingStatus → Answer

-- `requireRoles('resident','admin','manager')`
abbrev pub may_request : Role → Bool
may_request Role.resident = true
may_request Role.admin = true
may_request Role.manager = true
may_request _ = false

-- `Number(maxDaysSetting?.value ?? 90) || 90`; an unreadable setting is `none`.
abbrev pub max_days : Option ℕ → ℕ
max_days none = 90
max_days (some n) = if n == 0 then 90 else n

-- `Math.round(hoursBooked * rate)`, exactly
abbrev pub rounded_cost : ℕ → ℕ → ℕ
rounded_cost lasting rate = (2 * lasting * rate + 3600000) / 7200000

abbrev pub status_of : Facility → BookingStatus
status_of f = if f.requires_approval then BookingStatus.pending else BookingStatus.approved

-- What is known of a request once its fields have been read.
pub record Read : Type 0 where
  pub facility : Facility
  pub starts : ℕ
  pub ends : ℕ
  pub requester : Key
  pub property : Option Key
  pub attendees : Attendees

abbrev pub said_attendees : Attendees → Option ℕ
said_attendees (said n) = some n
said_attendees _ = none

abbrev attendees_ok : Attendees → Bool
attendees_ok unsaid = true
attendees_ok unreadable = false
attendees_ok (said n) = not (n == 0)

abbrev exceeds : Option ℕ → Attendees → Bool
exceeds (some capacity) (said n) = ltb capacity n
exceeds _ _ = false

abbrev pub new_booking : Key → Read → Booking
new_booking id r = record {
  id = id;
  facility_id = r.facility.id;
  requester_id = r.requester;
  property_id = r.property;
  starts_at = r.starts;
  ends_at = r.ends;
  attendees = said_attendees r.attendees;
  status = status_of r.facility;
  estimated_cost_minor =
      if r.facility.requires_payment
      then rounded_cost (r.ends - r.starts) r.facility.hourly_rate_minor
      else 0;
  deposit_minor = if r.facility.requires_payment then r.facility.deposit_minor else 0;
  bill_id = none;
  payment_status = PaymentState.not_required;
  decided_by = none;
  decided_at = none;
  cancelled_by = none;
  cancelled_at = none;
}

-- `propertyRelationship` of the requester, who is the resident that asks
abbrev occupies : ℕ → Key → Option Key → Db → Bool
occupies now requester none db = false
occupies now requester (some property) db =
    not (is_null (property_relationship (now / 86400000) requester property db.holdings))

module _ (now : ℕ) (actor : Actor) (db : Db) where
  -- The guards after the request has been read, in their order.
  unfoldable pub refusal_for : Option ℕ → Read → Option Refusal
  refusal_for days r =
      if leb r.ends r.starts
      then some ends_first
      else if ltb (r.facility.max_hours_per_booking * 3600000) (r.ends - r.starts)
      then some too_long
      else if ltb (now + max_days days * 86400000) r.starts
      then some too_far_ahead
      else if ltb 0 r.facility.min_notice_hours
          && ltb r.starts (now + r.facility.min_notice_hours * 3600000)
      then some too_short_notice
      else if is_null r.property
      then some no_property
      else if is_resident actor.role && not (occupies now r.requester r.property db)
      then some not_occupied
      else if not (attendees_ok r.attendees)
      then some bad_attendees
      else if exceeds r.facility.capacity r.attendees
      then some too_many_attendees
      else if has_booking_overlap r.facility.id r.starts r.ends none db.bookings
      then some window_taken
      else none

module _ (iso : ℕ → Text) (uuid : ℕ → Key) (now : ℕ) (actor : Actor) where
  abbrev pub charges : Facility → Booking → Bool
  charges f b =
      not f.requires_approval
      && f.requires_payment
      && not (b.estimated_cost_minor + b.deposit_minor == 0)

  -- The booking is inserted, and billed at once where no approval is needed.
  abbrev pub insert_booking : Read → Db → Db
  insert_booking r db =
      let b = new_booking (uuid db.drawn) r in
      let added = record db { bookings = db.bookings ++ b ∷ []; drawn = db.drawn + 1 } in
      if charges r.facility b
      then (bill_found iso uuid now (some r.facility) (some b) added).0
      else added

  abbrev pub answer_for : Option Refusal → Read → Db → Db × Answer
  answer_for (some e) r db = (db, refused e)
  answer_for none r db = (insert_booking r db, created (uuid db.drawn) (status_of r.facility))

  -- `requester.role === 'resident' ? requester.id : (body.requesterId ?? requester.id)`
  abbrev requester_for : Body → Key
  requester_for body =
      if is_resident actor.role then actor.id else value_or body.requester_id actor.id

  abbrev property_for : Body → Db → Option Key
  property_for body db = elim body.property_id [
    | none ↦ primary_resident_property_id (now / 86400000) (requester_for body) db.holdings
    | some p ↦ some p
  ]

  abbrev pub request_read : Option ℕ → Facility → Body → Option ℕ → Option ℕ → Db → Db × Answer
  request_read days f body (some starts) (some ends) db =
      let r : Read = record {
        facility = f;
        starts = starts;
        ends = ends;
        requester = requester_for body;
        property = property_for body db;
        attendees = body.attendees;
      } in
      answer_for (refusal_for now actor db days r) r db
  request_read days f body _ _ db = (db, refused unreadable_times)

  abbrev pub request_for :
      (Text → Option ℕ) → Option ℕ → Body → Text → Text → Option Facility → Db → Db × Answer
  request_for instant days body starts ends none db = (db, refused facility_not_found)
  request_for instant days body starts ends (some f) db =
      if f.is_active
      then request_read days f body (instant starts) (instant ends) db
      else (db, refused facility_not_found)

  abbrev pub request_fields :
      (Text → Option ℕ)
      → Option ℕ
      → Body
      → Option Key
      → Option Text
      → Option Text
      → Db
      → Db × Answer
  request_fields instant days body (some facility) (some starts) (some ends) db =
      request_for instant days body starts ends (find_facility facility db.facilities) db
  request_fields instant days body _ _ _ db = (db, refused fields_required)

  -- `POST /api/facility-bookings`; `days` is the setting `facility_booking_max_days_ahead`, and an
  -- empty text counts as left out.
  unfoldable pub request_booking : (Text → Option ℕ) → Option ℕ → Body → Db → Db × Answer
  request_booking instant days body db =
      if may_request actor.role
      then request_fields instant days body body.facility_id body.starts_at body.ends_at db
      else (db, refused role_refused)
