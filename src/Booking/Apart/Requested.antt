-- ===== src/Booking/Apart/Requested.antt =====
-- `POST /api/facility-bookings` of src/index.ts keeps the bookings apart.
use estatemate_minmoe.Prelude.{
  ℕ, ◌+◌, false, Option, none, some, [], ◌∷◌, ◌++◌, ◌==◌, any, ◌≡◌, refl, arith, if-either,
  fresh-keys,
}
use estatemate_minmoe.Prelude.Text.{Text}
use estatemate_minmoe.Hardware.{Key}
use estatemate_minmoe.Billing.{Actor}
use estatemate_minmoe.Booking.{Booking, Facility, Db, has_booking_overlap}
use estatemate_minmoe.Booking.Request.{
  Body, Read, Refusal, new_booking, refusal_for, insert_booking, request_read, request_for,
  request_fields, request_booking, may_request, charges,
}
use estatemate_minmoe.Booking.Disjoint.{disjoint-append}
use estatemate_minmoe.Booking.Request
use estatemate_minmoe.Booking.Apart.{IsApart, bill_found-IsApart}

module _ (iso : ℕ → Text) (uuid : ℕ → Key) (now : ℕ) (actor : Actor) where
  -- A request that is not refused asks for a window that is free.
  refusal-free :
      (r : Read) (days : Option ℕ) (db : Db)
      → refusal_for now actor db days r ≡ none
      → has_booking_overlap r.facility.id r.starts r.ends none db.bookings ≡ false
  unfolding refusal_for
  refusal-free r days db go = ground arith

  added-IsApart :
      (r : Read) (days : Option ℕ) (db : Db)
      → refusal_for now actor db days r ≡ none
      → any (λ b. b.id == uuid db.drawn) db.bookings ≡ false
      → IsApart db
      → IsApart (record db {
        bookings = db.bookings ++ new_booking (uuid db.drawn) r ∷ [];
        drawn = db.drawn + 1;
      })
  added-IsApart r days db go fresh h =
      let b = new_booking (uuid db.drawn) r in
      record {
        apart = disjoint-append b db.bookings (refusal-free r days db go) h.apart;
        ids = fresh-keys Booking.id b db.bookings fresh h.ids;
      }

  insert-IsApart :
      (r : Read) (days : Option ℕ) (db : Db)
      → refusal_for now actor db days r ≡ none
      → any (λ b. b.id == uuid db.drawn) db.bookings ≡ false
      → IsApart db
      → IsApart (insert_booking iso uuid now actor r db)
  insert-IsApart r days db go fresh h =
      let added = added-IsApart r days db go fresh h in
      if-either (λ d. IsApart d)
        (charges iso uuid now actor r.facility (new_booking (uuid db.drawn) r))
        (bill_found-IsApart iso uuid now (some r.facility) (some (new_booking (uuid db.drawn) r))
          (record db {
            bookings = db.bookings ++ new_booking (uuid db.drawn) r ∷ [];
            drawn = db.drawn + 1;
          })
          added)
        added

  answered-IsApart :
      (o : Option Refusal) (r : Read) (days : Option ℕ) (db : Db)
      → refusal_for now actor db days r ≡ o
      → any (λ b. b.id == uuid db.drawn) db.bookings ≡ false
      → IsApart db
      → IsApart (Request.answer_for iso uuid now actor o r db).0
  answered-IsApart (some e) r days db go fresh h = h
  answered-IsApart none r days db go fresh h = insert-IsApart r days db go fresh h

  read-IsApart :
      (days : Option ℕ) (f : Facility) (body : Body) (starts ends : Option ℕ) (db : Db)
      → any (λ b. b.id == uuid db.drawn) db.bookings ≡ false
      → IsApart db
      → IsApart (request_read iso uuid now actor days f body starts ends db).0
  read-IsApart days f body none ends db fresh h = h
  read-IsApart days f body (some s) none db fresh h = h
  read-IsApart days f body (some s) (some e) db fresh h = answered-IsApart _ _ days db refl fresh h

  for-IsApart :
      (instant : Text → Option ℕ) (days : Option ℕ) (body : Body) (s e : Text) (f : Option Facility)
      (db : Db)
      → any (λ b. b.id == uuid db.drawn) db.bookings ≡ false
      → IsApart db
      → IsApart (request_for iso uuid now actor instant days body s e f db).0
  for-IsApart instant days body s e none db fresh h = h
  for-IsApart instant days body s e (some f) db fresh h =
      if-either {A = Db × Request.Answer} (λ r. IsApart r.0) f.is_active
        (read-IsApart days f body (instant s) (instant e) db fresh h) h

  fields-IsApart :
      (instant : Text → Option ℕ) (days : Option ℕ) (body : Body) (k : Option Key)
      (s e : Option Text) (db : Db)
      → any (λ b. b.id == uuid db.drawn) db.bookings ≡ false
      → IsApart db
      → IsApart (request_fields iso uuid now actor instant days body k s e db).0
  fields-IsApart instant days body none s e db fresh h = h
  fields-IsApart instant days body (some k) none e db fresh h = h
  fields-IsApart instant days body (some k) (some s) none db fresh h = h
  fields-IsApart instant days body (some k) (some s) (some e) db fresh h =
      for-IsApart instant days body s e _ db fresh h

  -- A request keeps the bookings apart, whatever it answers, when the id of the new one is fresh.
  pub request_booking-IsApart :
      (instant : Text → Option ℕ) (days : Option ℕ) (body : Body) (db : Db)
      → any (λ b. b.id == uuid db.drawn) db.bookings ≡ false
      → IsApart db
      → IsApart (request_booking iso uuid now actor instant days body db).0
  unfolding request_booking
  request_booking-IsApart instant days body db fresh h =
      if-either {A = Db × Request.Answer} (λ r. IsApart r.0) (may_request actor.role)
        (fields-IsApart instant days body body.facility_id body.starts_at body.ends_at db fresh h) h
