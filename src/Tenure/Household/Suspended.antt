-- ===== src/Tenure/Household/Suspended.antt =====
-- What `deactivatePrimaryHousehold` of src/index.ts leaves of a household: no member and no credential.
use estatemate_minmoe.Prelude.{
  ℕ, false, ◌&&◌, List, ◌==◌, any, count, select, update, ◌≡◌, refl, ap, ◌∙◌, arith, for_each,
  for_each-kept, for_each-field, sweep-select, count-update_zero, ==_refl, Option,
}
use estatemate_minmoe.Hardware.{Key}
use estatemate_minmoe.Credentials.{Credential, Card, Finger}
use estatemate_minmoe.Tenure.Household.{
  Db, is_household, is_open_member, deactivated, is_of_household, suspended, suspend_row,
  suspend_card, suspend_finger, deactivate_primary_household,
}

module _ (uuid : ℕ → Key) (now : ℕ) (actor : Option Key) (property primary : Key) (db : Db) where
  suspended_table :
      {D : Type 0} (cs : List (Credential D))
      → any (is_of_household db.members property primary) (
          for_each
            (λ cs c. suspend_row now c.id cs)
            (select (is_of_household db.members property primary) cs)
            cs)
        ≡ false
  suspended_table cs =
      sweep-select (λ s c. c.id == s.id) (suspended now)
        (is_of_household db.members property primary) cs (λ c h. ==_refl c.id) (λ c. refl)

  abbrev after : Db
  after = deactivate_primary_household uuid now actor property primary db

  abbrev closed : Db
  closed = record db {
    members =
        update (λ m. is_household property primary m && is_open_member m) (deactivated actor now)
          db.members;
  }

  abbrev cards_found : List Card
  cards_found = select (is_of_household db.members property primary) db.cards

  abbrev fingers_found : List Finger
  fingers_found = select (is_of_household db.members property primary) db.fingers

  abbrev between : Db
  between = for_each (suspend_card uuid now actor) cards_found closed

  members-after : after.members ≡ closed.members
  unfolding deactivate_primary_household suspend_card suspend_finger
  members-after =
      for_each-kept Db.members (suspend_finger uuid now actor) fingers_found between (λ s f. refl)
      ∙ for_each-kept Db.members (suspend_card uuid now actor) cards_found closed (λ s c. refl)

  cards-after : after.cards ≡ for_each (λ cs c. suspend_row now c.id cs) cards_found db.cards
  unfolding deactivate_primary_household suspend_card suspend_finger
  cards-after =
      for_each-kept Db.cards (suspend_finger uuid now actor) fingers_found between (λ s f. refl)
      ∙ for_each-field Db.cards (suspend_card uuid now actor) (λ cs c. suspend_row now c.id cs)
          cards_found closed (λ s c. refl)

  fingers-after :
      after.fingers ≡ for_each (λ fs f. suspend_row now f.id fs) fingers_found db.fingers
  unfolding deactivate_primary_household suspend_card suspend_finger
  fingers-after =
      for_each-field Db.fingers (suspend_finger uuid now actor) (λ fs f. suspend_row now f.id fs)
        fingers_found between (λ s f. refl)
      ∙ ap (for_each (λ fs f. suspend_row now f.id fs) fingers_found)
          (for_each-kept Db.fingers (suspend_card uuid now actor) cards_found closed (λ s c. refl))

-- After `deactivatePrimaryHousehold` the household of a property and its main resident has no member that
-- is active or pending, and none of those who were its members has an active card or finger.
pub any-deactivate_primary_household :
    (uuid : ℕ → Key) (now : ℕ) (actor : Option Key) (property primary : Key) (db : Db)
    → (count
          (λ m. is_household property primary m && is_open_member m)
          (deactivate_primary_household uuid now actor property primary db).members
        ≡ 0)
      × (any
            (is_of_household db.members property primary)
            (deactivate_primary_household uuid now actor property primary db).cards
          ≡ false)
      × (any
            (is_of_household db.members property primary)
            (deactivate_primary_household uuid now actor property primary db).fingers
          ≡ false)
any-deactivate_primary_household uuid now actor property primary db = (
  ap (count (λ m. is_household property primary m && is_open_member m))
        (members-after uuid now actor property primary db)
      ∙ count-update_zero (λ m. is_household property primary m && is_open_member m)
          (deactivated actor now) db.members (λ m h. ground arith),
  ap (any (is_of_household db.members property primary))
        (cards-after uuid now actor property primary db)
      ∙ suspended_table uuid now actor property primary db db.cards,
  ap (any (is_of_household db.members property primary))
        (fingers-after uuid now actor property primary db)
      ∙ suspended_table uuid now actor property primary db db.fingers,
)
