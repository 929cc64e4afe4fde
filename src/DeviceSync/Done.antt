-- ===== src/DeviceSync/Done.antt =====
-- What a run of `syncPersonToDevices` of src/device-sync.ts has open when it ends: the person, the
-- cards and the fingers on each of its terminals.
use estatemate_minmoe.Prelude.{
  ℕ, Bool, true, ◌&&◌, List, [], ◌∷◌, any, all, for_each, for_each-always, for_each-covers, ◌≡◌,
  refl, arith,
}
use estatemate_minmoe.Prelude.Text.{Text}
use estatemate_minmoe.Hardware.{Key}
use estatemate_minmoe.Credentials.{DeviceOperation, upsert_person}
use estatemate_minmoe.DeviceSync.{PersonRef, SyncDevice, Tables}
use estatemate_minmoe.DeviceSync.State.{Work, is_person_open, is_card_open, is_finger_open}
use estatemate_minmoe.DeviceSync.Rows.{card_kind, cards_for_person, fingers_for_person}
use estatemate_minmoe.DeviceSync.Queueing.{person_step, card_step, finger_step, credentials_step}
use estatemate_minmoe.DeviceSync.Open.{
  all_operations, Keeps, person_step-Keeps, card_step-Keeps, finger_step-Keeps,
  credentials_step-Keeps, person_step-covers, card_step-covers, finger_step-covers,
}

module _ {A : Type 0} where
  -- What holds of all rows of one list of operations holds of them in another that keeps it.
  pub all-Keeps :
      (r : A → DeviceOperation → Bool) (v w : Work) (rows : List A)
      → Keeps v w
      → all (λ a. any (r a) (all_operations v)) rows ≡ true
      → all (λ a. any (r a) (all_operations w)) rows ≡ true
  all-Keeps r v w [] k h = refl
  all-Keeps r v w (a ∷ rows) k h = ground (arith, k (r a), all-Keeps r v w rows k)

module _ (t : Tables) (p : PersonRef) where
  abbrev pub person_open : List DeviceOperation → SyncDevice → Bool
  person_open ops d = any (is_person_open d.id upsert_person p) ops

  abbrev pub cards_open : List DeviceOperation → SyncDevice → Bool
  cards_open ops d =
      all (λ c. any (is_card_open d.id (card_kind c) c.id) ops) (cards_for_person t p)

  abbrev pub fingers_open : List DeviceOperation → SyncDevice → Bool
  fingers_open ops d = all (λ f. any (is_finger_open d.id f.id) ops) (fingers_for_person t p)

  abbrev pub credentials_open : List DeviceOperation → SyncDevice → Bool
  credentials_open ops d = cards_open ops d && fingers_open ops d

module _ (uuid : ℕ → Key) (now : ℕ) (t : Tables) (p : PersonRef) (employee_no reason : Text) where
  pub persons_done :
      (devices : List SyncDevice) (w : Work)
      → all
          (person_open t p
            (all_operations (for_each (person_step uuid now p employee_no reason) devices w)))
          devices
        ≡ true
  persons_done devices w =
      for_each-covers (person_step uuid now p employee_no reason)
        (λ d v. person_open t p (all_operations v) d) devices w
        (λ v d. person_step-covers uuid now t p employee_no reason v d)
        (λ v d e h.
          person_step-Keeps uuid now t p employee_no reason v d
            (is_person_open e.id upsert_person p) h)

  credentials_step-covers :
      (w : Work) (d : SyncDevice)
      → credentials_open t p
          (all_operations (credentials_step uuid now t p employee_no reason w d))
          d
        ≡ true
  unfolding credentials_step
  credentials_step-covers w d =
      let cards = cards_for_person t p in
      let fingers = fingers_for_person t p in
      let middle = for_each (card_step uuid now p employee_no reason d) cards w in
      let after = for_each (finger_step uuid now t p reason d) fingers middle in
      let later : Keeps middle after = λ r h.
        for_each-always (finger_step uuid now t p reason d) (λ v. any r (all_operations v) ≡ true)
          fingers middle (λ v f. finger_step-Keeps uuid now t p employee_no reason d v f r) h in
      let first_done : cards_open t p (all_operations middle) d ≡ true =
        for_each-covers (card_step uuid now p employee_no reason d)
          (λ c v. any (is_card_open d.id (card_kind c) c.id) (all_operations v)) cards w
          (λ v c. card_step-covers uuid now t p employee_no reason d v c)
          (λ v c e h.
            card_step-Keeps uuid now t p employee_no reason d v c
              (is_card_open d.id (card_kind e) e.id) h) in
      let cards_done : cards_open t p (all_operations after) d ≡ true =
        all-Keeps (λ c. is_card_open d.id (card_kind c) c.id) middle after cards later first_done in
      let fingers_done : fingers_open t p (all_operations after) d ≡ true =
        for_each-covers (finger_step uuid now t p reason d)
          (λ f v. any (is_finger_open d.id f.id) (all_operations v)) fingers middle
          (λ v f. finger_step-covers uuid now t p employee_no reason d v f)
          (λ v f e h.
            finger_step-Keeps uuid now t p employee_no reason d v f (is_finger_open d.id e.id) h) in
      ground (arith, cards_done, fingers_done)

  pub credentials_done :
      (devices : List SyncDevice) (w : Work)
      → all
          (credentials_open t p (
            all_operations (for_each (credentials_step uuid now t p employee_no reason) devices w)))
          devices
        ≡ true
  credentials_done devices w =
      for_each-covers (credentials_step uuid now t p employee_no reason)
        (λ d v. credentials_open t p (all_operations v) d) devices w credentials_step-covers
        (λ v d e h.
          let after = credentials_step uuid now t p employee_no reason v d in
          let keeps = credentials_step-Keeps uuid now t p employee_no reason v d in
          ground (
            arith,
            all-Keeps (λ c. is_card_open e.id (card_kind c) c.id) v after (cards_for_person t p)
                keeps,
            all-Keeps (λ f. is_finger_open e.id f.id) v after (fingers_for_person t p) keeps,
          ))
