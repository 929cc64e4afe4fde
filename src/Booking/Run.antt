-- ===== src/Booking/Run.antt =====
-- Runs of the two routes for facility bookings of src/index.ts, one request after the other.
use estatemate_minmoe.Prelude.{ℕ, false, Option, ◌==◌, any, ◌≡◌}
use estatemate_minmoe.Prelude.Text.{Text}
use estatemate_minmoe.Hardware.{Key}
use estatemate_minmoe.Billing.{Actor}
use estatemate_minmoe.Booking.{Db}
use estatemate_minmoe.Booking.Request.{Body, request_booking}
use estatemate_minmoe.Booking.Decide.{Action, handle_booking_action}
use estatemate_minmoe.Booking.Apart.{IsApart}
use estatemate_minmoe.Booking.Apart.Requested.{request_booking-IsApart}
use estatemate_minmoe.Booking.Apart.Decided.{handle_booking_action-IsApart}

-- A request that the server answers, at a time of its own; the id of a new booking is fresh.
pub data Step (iso : ℕ → Text) (uuid : ℕ → Key) (instant : Text → Option ℕ) (db : Db)
    : Db → Type 0 where
  request :
      (now : ℕ) (actor : Actor) (days : Option ℕ) (body : Body)
      → any (λ b. b.id == uuid db.drawn) db.bookings ≡ false
      → Step iso uuid instant db (request_booking iso uuid now actor instant days body db).0
  decide :
      (now : ℕ) (actor : Actor) (id : Key) (action : Option Action)
      → Step iso uuid instant db (handle_booking_action iso uuid now actor id action db).0

pub data Reachable (iso : ℕ → Text) (uuid : ℕ → Key) (instant : Text → Option ℕ) (start : Db)
    : Db → Type 0 where
  begun : Reachable iso uuid instant start start
  followed :
      {db next : Db}
      → Reachable iso uuid instant start db
      → Step iso uuid instant db next
      → Reachable iso uuid instant start next

-- Along every run of requests and decisions, no two pending or approved bookings of a facility overlap,
-- as `datetime` compares their windows, and no two bookings have one id, if this is so to begin with.
pub Reachable-IsApart :
    (iso : ℕ → Text) (uuid : ℕ → Key) (instant : Text → Option ℕ) (start db : Db)
    → IsApart start
    → Reachable iso uuid instant start db
    → IsApart db
Reachable-IsApart iso uuid instant start _ h begun = h
Reachable-IsApart iso uuid instant start _ h
      (followed {db} before (request now actor days body fresh)) =
    request_booking-IsApart iso uuid now actor instant days body db fresh
      (Reachable-IsApart iso uuid instant start db h before)
Reachable-IsApart iso uuid instant start _ h (followed {db} before (decide now actor id action)) =
    handle_booking_action-IsApart iso uuid now actor id action db
      (Reachable-IsApart iso uuid instant start db h before)
