-- ===== src/Booking/Disjoint.antt =====
-- Bookings of src/index.ts that own their windows, pairwise apart, under inserts and updates.
use estatemate_minmoe.Prelude.{
  Bool, true, false, not, ◌&&◌, ◌||◌, none, List, [], ◌∷◌, ◌++◌, ◌==◌, if◌then◌else◌, any, all,
  update, ◌≡◌, refl, arith,
}
use estatemate_minmoe.Booking.{Booking, holds_window, overlaps, is_other, has_booking_overlap}

abbrev pub meets : Booking → Booking → Bool
meets a b = a.facility_id == b.facility_id && overlaps a.starts_at a.ends_at b

-- Two bookings that own one window.
abbrev pub clashes : Booking → Booking → Bool
clashes a b = holds_window a.status && holds_window b.status && meets a b

-- No two bookings of a list clash.
abbrev pub are_disjoint : List Booking → Bool
are_disjoint [] = true
are_disjoint (b ∷ bs) = not (any (clashes b) bs) && are_disjoint bs

-- A change that keeps the facility and the window, and gives no window to a booking that had none.
pub record Narrows (found : Booking → Bool) (f : Booking → Booking) : Type 0 where
  pub facility : (x : Booking) → (f x).facility_id ≡ x.facility_id
  pub starts : (x : Booking) → (f x).starts_at ≡ x.starts_at
  pub ends : (x : Booking) → (f x).ends_at ≡ x.ends_at
  pub window :
      (x : Booking)
      → found x ≡ true
      → holds_window (f x).status ≡ true
      → holds_window x.status ≡ true

module _ (found q : Booking → Bool) (f : Booking → Booking) (narrows : Narrows found f) where
  abbrev one : Booking → Booking
  one x = if q x then f x else x

  one-clashes :
      (a x : Booking)
      → (not (q a) || found a) ≡ true
      → (not (q x) || found x) ≡ true
      → clashes a x ≡ false
      → clashes (one a) (one x) ≡ false
  one-clashes a x ha hx h = ground (
    arith,
    narrows.facility a,
    narrows.facility x,
    narrows.starts a,
    narrows.starts x,
    narrows.ends a,
    narrows.ends x,
    narrows.window a,
    narrows.window x,
  )

  any-clashes :
      (a : Booking) (xs : List Booking)
      → (not (q a) || found a) ≡ true
      → all (λ x. not (q x) || found x) xs ≡ true
      → any (clashes a) xs ≡ false
      → any (clashes (one a)) (update q f xs) ≡ false
  any-clashes a [] ha k h = refl
  any-clashes a (x ∷ xs) ha k h = ground (arith, one-clashes a x, any-clashes a xs ha)

  pub disjoint-update :
      (xs : List Booking)
      → all (λ x. not (q x) || found x) xs ≡ true
      → are_disjoint xs ≡ true
      → are_disjoint (update q f xs) ≡ true
  disjoint-update [] k h = refl
  disjoint-update (x ∷ xs) k h = ground (arith, any-clashes x xs, disjoint-update xs)

apart :
    (r x : Booking)
    → (x.facility_id == r.facility_id
        && holds_window x.status
        && overlaps r.starts_at r.ends_at x
        && is_other none x)
      ≡ false
    → clashes x r ≡ false
apart r x h = ground arith

any-clashes-append :
    (a r : Booking) (xs : List Booking)
    → clashes a r ≡ false
    → any (clashes a) xs ≡ false
    → any (clashes a) (xs ++ r ∷ []) ≡ false
any-clashes-append a r [] k h = ground arith
any-clashes-append a r (x ∷ xs) k h = ground (arith, any-clashes-append a r xs)

-- A booking whose window `bookingOverlapId` finds free can be added.
pub disjoint-append :
    (r : Booking) (xs : List Booking)
    → has_booking_overlap r.facility_id r.starts_at r.ends_at none xs ≡ false
    → are_disjoint xs ≡ true
    → are_disjoint (xs ++ r ∷ []) ≡ true
unfolding has_booking_overlap
disjoint-append r [] k h = refl
disjoint-append r (x ∷ xs) k h =
    ground (arith, apart r x, any-clashes-append x r xs, disjoint-append r xs)
