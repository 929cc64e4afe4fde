-- ===== src/Booking/Tests.antt =====
-- The theorem on bookings of src/index.ts at one hall, and runs of the two routes.
use estatemate_minmoe.Prelude.{ℕ, ◌+◌, true, Option, none, some, [], ◌∷◌, map, ◌≡◌, refl, arith}
use estatemate_minmoe.Prelude.Text.{Text, lit}
use estatemate_minmoe.Hardware.{Key}
use estatemate_minmoe.Billing.{Actor, Role}
use estatemate_minmoe.Booking.{Booking, Facility, Db, has_booking_overlap}
use estatemate_minmoe.Booking.Request.{
  Body, said, window_taken, refused, refusal_for, request_booking,
}
use estatemate_minmoe.Booking.Decide.{approve, handle_booking_action}
use estatemate_minmoe.Booking.Apart.{IsApart}
use estatemate_minmoe.Booking.Run.{Reachable, begun, followed, request, decide, Reachable-IsApart}

abbrev hall : Facility
hall = record {
  id = 3;
  name = lit "Hall";
  capacity = some 40;
  hourly_rate_minor = 1000;
  deposit_minor = 500;
  currency = lit "NGN";
  requires_approval = true;
  requires_payment = true;
  min_notice_hours = 1;
  max_hours_per_booking = 8;
  is_active = true;
}

abbrev start : Db
start = record {
  facilities = hall ∷ [];
  bookings = [];
  bills = [];
  holdings = record { ownerships = []; tenancies = []; members = [] };
  drawn = 0;
}

abbrev manager : Actor
manager = record { id = 9; role = Role.manager }

-- Two hours on the second day.
abbrev body : Body
body = record {
  facility_id = some 3;
  property_id = some 1;
  starts_at = some (86400000 ∷ []);
  ends_at = some (93600000 ∷ []);
  attendees = said 12;
  requester_id = some 5;
}

-- A reading of instants for the test: a text of one number is that instant.
abbrev instant : Text → Option ℕ
instant [] = none
instant (t ∷ s) = some t

abbrev uuid : ℕ → Key
uuid n = 100 + n

abbrev iso : ℕ → Text
iso t = lit "1970-01-02T00:00:00.000Z"

abbrev asked : Db
asked = (request_booking iso uuid 1000 manager instant none body start).0

abbrev approved : Db
approved = (handle_booking_action iso uuid 2000 manager 100 (some approve) asked).0

approved_cost : map Booking.estimated_cost_minor approved.bookings ≡ 2000 ∷ []
unfolding request_booking handle_booking_action refusal_for has_booking_overlap
approved_cost = refl

approved_bill : map Booking.bill_id approved.bookings ≡ some 101 ∷ []
unfolding request_booking handle_booking_action refusal_for has_booking_overlap
approved_bill = refl

second_refused :
    (request_booking iso uuid 3000 manager instant none body approved).1 ≡ refused window_taken
unfolding request_booking handle_booking_action refusal_for has_booking_overlap
second_refused = refl

run : Reachable iso uuid instant start approved
run =
    followed (followed begun (request 1000 manager none body refl))
      (decide 2000 manager 100 (some approve))

start-IsApart : IsApart start
start-IsApart = record { apart = refl; ids = λ k. ground arith }

Reachable-IsApart_example : IsApart approved
Reachable-IsApart_example = Reachable-IsApart iso uuid instant start approved start-IsApart run
