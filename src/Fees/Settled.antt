-- ===== src/Fees/Settled.antt =====
-- What a run of `enforceFacilityFees` of src/index.ts leaves to do: nothing, unless it throws.
use estatemate_minmoe.Prelude.{
  ℕ, Bool, true, false, not, ◌&&◌, List, ◌==◌, any, all, select, ◌≡◌, refl, ap, ◌∙◌, arith,
  for_each, for_each-kept, for_each-field, select-any, all-sweep,
}
use estatemate_minmoe.Hardware.{Key}
use estatemate_minmoe.Credentials.{Credential, is_active}
use estatemate_minmoe.Fees.{
  Db, Ledger, is_late, is_cleared, lapsed, expire_row, restore_row, has_resident, expire_card,
  expire_finger, restore_card, expire_cards, expire_fingers, restore_cards, restore_fingers,
  restore_each, enforce_facility_fees,
}
use estatemate_minmoe.Fees.Fingers.{
  is_keyed, is_keyed-sweep, is_due, Ends, restore_each-Ends, restore_each-again, cards-restore_each,
}
use estatemate_minmoe.Fees.Table.{
  is_held_by, none_left, late, expire_from, restore_from, expired_settled, restored_settled,
}

-- No card is left for a run to expire or to restore, and no finger to expire.
abbrev pub is_settled : ℕ → Ledger → Db → Bool
is_settled now ledger db =
    none_left now ledger (λ c. true) db.cards
    && not (any (late now ledger (has_resident ledger)) db.fingers)

module _ (uuid : ℕ → Key) (now : ℕ) (ledger : Ledger) where
  cards-expire_cards :
      (db : Db)
      → (expire_cards uuid now ledger db).cards ≡ expire_from now ledger (λ c. true) db.cards
  unfolding expire_cards expire_card
  cards-expire_cards db =
      for_each-field Db.cards (expire_card uuid now ledger) (λ cs c. expire_row now c.id cs)
        (select (is_late now ledger) db.cards) db (λ s c. refl)

  fingers-expire_cards : (db : Db) → (expire_cards uuid now ledger db).fingers ≡ db.fingers
  unfolding expire_cards expire_card
  fingers-expire_cards db =
      for_each-kept Db.fingers (expire_card uuid now ledger) (select (is_late now ledger) db.cards)
        db (λ s c. refl)

  cards-expire_fingers : (db : Db) → (expire_fingers uuid now ledger db).cards ≡ db.cards
  unfolding expire_fingers expire_finger
  cards-expire_fingers db =
      for_each-kept Db.cards (expire_finger uuid now ledger)
        (select (late now ledger (has_resident ledger)) db.fingers) db (λ s f. refl)

  fingers-expire_fingers :
      (db : Db)
      → (expire_fingers uuid now ledger db).fingers
        ≡ expire_from now ledger (has_resident ledger) db.fingers
  unfolding expire_fingers expire_finger
  fingers-expire_fingers db =
      for_each-field Db.fingers (expire_finger uuid now ledger) (λ fs f. expire_row now f.id fs)
        (select (late now ledger (has_resident ledger)) db.fingers) db (λ s f. refl)

  cards-restore_cards :
      (db : Db)
      → (restore_cards uuid now ledger db).cards ≡ restore_from now ledger (λ c. true) db.cards
  unfolding restore_cards restore_card
  cards-restore_cards db =
      for_each-field Db.cards (restore_card uuid now ledger) (λ cs c. restore_row c.id cs)
        (select (is_cleared now ledger) db.cards) db (λ s c. refl)

  fingers-restore_cards : (db : Db) → (restore_cards uuid now ledger db).fingers ≡ db.fingers
  unfolding restore_cards restore_card
  fingers-restore_cards db =
      for_each-kept Db.fingers (restore_card uuid now ledger)
        (select (is_cleared now ledger) db.cards) db (λ s c. refl)

  cards-enforce :
      (db : Db)
      → (enforce_facility_fees uuid now ledger db).0.cards
        ≡ restore_from now ledger (λ c. true) (expire_from now ledger (λ c. true) db.cards)
  unfolding enforce_facility_fees restore_fingers
  cards-enforce db =
      let expired = expire_fingers uuid now ledger (expire_cards uuid now ledger db) in
      let cards_done = restore_cards uuid now ledger expired in
      cards-restore_each uuid now ledger (select (is_due uuid now ledger) cards_done.fingers)
        cards_done
      ∙ cards-restore_cards expired
      ∙ ap (restore_from now ledger (λ c. true))
          (cards-expire_fingers (expire_cards uuid now ledger db) ∙ cards-expire_cards db)

  -- The fingers as the last loop finds them.
  fingers-before :
      (db : Db)
      → (restore_cards uuid now ledger
          (expire_fingers uuid now ledger (expire_cards uuid now ledger db))).fingers
        ≡ expire_from now ledger (has_resident ledger) db.fingers
  fingers-before db =
      fingers-restore_cards (expire_fingers uuid now ledger (expire_cards uuid now ledger db))
      ∙ fingers-expire_fingers (expire_cards uuid now ledger db)
      ∙ ap (expire_from now ledger (has_resident ledger)) (fingers-expire_cards db)

  fingers-enforce :
      (db : Db)
      → is_keyed db.fingers ≡ true
      → (any
            (late now ledger (has_resident ledger))
            (enforce_facility_fees uuid now ledger db).0.fingers
          ≡ false)
        × Ends uuid now ledger (enforce_facility_fees uuid now ledger db)
  unfolding enforce_facility_fees restore_fingers
  fingers-enforce db keyed =
      let cards_done =
        restore_cards uuid now ledger
          (expire_fingers uuid now ledger (expire_cards uuid now ledger db)) in
      restore_each-Ends uuid now ledger (select (is_due uuid now ledger) cards_done.fingers)
        cards_done
        (ap is_keyed (fingers-before db)
          ∙ is_keyed-sweep (λ s c. c.id == s.id && is_active c.status) (lapsed now)
              (select (late now ledger (has_resident ledger)) db.fingers) db.fingers (λ c. refl)
              keyed)
        (ap (any (late now ledger (has_resident ledger))) (fingers-before db)
          ∙ expired_settled now ledger (has_resident ledger) db.fingers)
        refl

  settled_table :
      {D : Type 0} (known : Credential D → Bool) (owner : Key → Key) (cs : List (Credential D))
      → all (is_held_by owner) cs ≡ true
      → none_left now ledger known (restore_from now ledger known (expire_from now ledger known cs))
        ≡ true
  settled_table known owner cs held =
      restored_settled now ledger known owner (expire_from now ledger known cs)
        (all-sweep (λ s c. c.id == s.id && is_active c.status) (lapsed now) (is_held_by owner)
          (select (late now ledger known) cs) cs (λ c w. w) held)
        (expired_settled now ledger known cs)

-- After a run no active card belongs to a resident whose facility fee is overdue beyond the grace period,
-- and no card that the estate let expire for a fee belongs to one whose fee is not; no active finger whose
-- holder has an account belongs to one whose fee is overdue. And either no such finger that the estate let
-- expire is left to restore, or the run has thrown at the first that is left, whose slot another live
-- finger of the person has. Cards under one id must be held by one resident, and the ids of fingers differ.
pub enforce_facility_fees-settled :
    (uuid : ℕ → Key) (now : ℕ) (ledger : Ledger) (card_owner : Key → Key) (db : Db)
    → all (is_held_by card_owner) db.cards ≡ true
    → is_keyed db.fingers ≡ true
    → (is_settled now ledger (enforce_facility_fees uuid now ledger db).0 ≡ true)
      × Ends uuid now ledger (enforce_facility_fees uuid now ledger db)
enforce_facility_fees-settled uuid now ledger card_owner db cards fingers =
    let c : none_left now ledger (λ c. true) (enforce_facility_fees uuid now ledger db).0.cards
        ≡ true =
      ap (none_left now ledger (λ c. true)) (cards-enforce uuid now ledger db)
      ∙ settled_table uuid now ledger (λ c. true) card_owner db.cards cards in
    let f = fingers-enforce uuid now ledger db fingers in (ground (arith, c, f.0), f.1)

module _ {S A : Type 0} where
  for_each-none :
      (step : S → A → S) (p : A → Bool) (rows : List A) (s : S)
      → any p rows ≡ false
      → for_each step (select p rows) s ≡ s
  for_each-none step p rows s h = ap (λ r. for_each step r s) (select-any p rows h)

-- A run that finds no more than fingers to restore does what its last loop does.
settled-enforce_facility_fees :
    (uuid : ℕ → Key) (now : ℕ) (ledger : Ledger) (db : Db)
    → is_settled now ledger db ≡ true
    → enforce_facility_fees uuid now ledger db
      ≡ restore_each uuid now ledger (select (is_due uuid now ledger) db.fingers) db
unfolding enforce_facility_fees expire_cards expire_fingers restore_cards restore_fingers
settled-enforce_facility_fees uuid now ledger db h =
    let one : expire_cards uuid now ledger db ≡ db =
      for_each-none (expire_card uuid now ledger) (is_late now ledger) db.cards db (ground arith) in
    let two : expire_fingers uuid now ledger db ≡ db =
      for_each-none (expire_finger uuid now ledger) (late now ledger (has_resident ledger))
        db.fingers db (ground arith) in
    let three : restore_cards uuid now ledger db ≡ db =
      for_each-none (restore_card uuid now ledger) (is_cleared now ledger) db.cards db
        (ground arith) in
    ap
      (λ d.
        restore_fingers uuid now ledger
          (restore_cards uuid now ledger (expire_fingers uuid now ledger d)))
      one
    ∙ ap (λ d. restore_fingers uuid now ledger (restore_cards uuid now ledger d)) two
    ∙ ap (restore_fingers uuid now ledger) three

-- A second run at the same time, with the same bills, changes nothing and queues nothing: the statuses,
-- their logs and the work for the terminals stay as the first run left them, and the second throws if the
-- first did. Cards under one id must be held by one resident, and the ids of fingers differ.
pub twice-enforce_facility_fees :
    (uuid : ℕ → Key) (now : ℕ) (ledger : Ledger) (card_owner : Key → Key) (db : Db)
    → all (is_held_by card_owner) db.cards ≡ true
    → is_keyed db.fingers ≡ true
    → enforce_facility_fees uuid now ledger (enforce_facility_fees uuid now ledger db).0
      ≡ enforce_facility_fees uuid now ledger db
twice-enforce_facility_fees uuid now ledger card_owner db cards fingers =
    let after = enforce_facility_fees-settled uuid now ledger card_owner db cards fingers in
    settled-enforce_facility_fees uuid now ledger (enforce_facility_fees uuid now ledger db).0
      after.0
    ∙ restore_each-again uuid now ledger (enforce_facility_fees uuid now ledger db) after.1
