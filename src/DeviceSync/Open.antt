-- ===== src/DeviceSync/Open.antt =====
-- What a step of `syncPersonToDevices` of src/device-sync.ts keeps open, and what it opens.
use estatemate_minmoe.Prelude.{
  ℕ, Bool, true, false, Option, none, some, List, [], ◌∷◌, ◌++◌, if◌then◌else◌, any, first,
  for_each, for_each-always, any-append, ◌≡◌, refl, ap, ◌∙◌, arith, inl, inr, Bool-cases, if-either,
  ==_refl,
}
use estatemate_minmoe.Prelude.Text.{Text}
use estatemate_minmoe.Hardware.{Key, holds_key}
use estatemate_minmoe.Credentials.{Card, Finger, DeviceOperation, upsert_person}
use estatemate_minmoe.DeviceSync.{
  PersonRef, is_account, SyncDevice, Tables, agent_can, card, person, account, dependant,
  PersonKind,
}
use estatemate_minmoe.DeviceSync.State.{
  SyncState, PersonState, Db, Work, is_person_open, is_card_open, is_finger_open, is_state_of,
  set_found, set_device_person_state, is_open, delivery,
}
use estatemate_minmoe.DeviceSync.Rows.{
  person_row, card_kind, card_row, cards_for_person, fingers_for_person, finger_ready, finger_row,
}
use estatemate_minmoe.DeviceSync.Queueing.{
  push, queue_person, person_step, card_step, finger_step, credentials_step,
}

-- The operations as they are once the batch has run.
abbrev pub all_operations : Work → List DeviceOperation
all_operations w = w.db.operations ++ w.statements

-- A step keeps what is queued.
abbrev pub Keeps : Work → Work → Type 0
Keeps v w =
    (r : DeviceOperation → Bool) → any r (all_operations v) ≡ true → any r (all_operations w) ≡ true

any-left :
    (r : DeviceOperation → Bool) (xs ys : List DeviceOperation)
    → any r xs ≡ true
    → any r (xs ++ ys) ≡ true
any-left r xs ys h = ground (arith, any-append r xs ys)

any-last :
    (r : DeviceOperation → Bool) (xs : List DeviceOperation) (o : DeviceOperation)
    → r o ≡ true
    → any r (xs ++ o ∷ []) ≡ true
any-last r xs o h = ground (arith, any-append r xs (o ∷ []))

operations-set_found :
    (uuid : ℕ → Key) (now : ℕ) (p : PersonRef) (device : Key) (state : SyncState)
    (o : Option PersonState) (db : Db)
    → (set_found uuid now p device state o db).operations ≡ db.operations
operations-set_found uuid now p device state none db = refl
operations-set_found uuid now p device state (some s) db = refl

pub operations-set :
    (uuid : ℕ → Key) (now : ℕ) (p : PersonRef) (device : Key) (state : SyncState) (db : Db)
    → (set_device_person_state uuid now p device state db).operations ≡ db.operations
unfolding set_device_person_state
operations-set uuid now p device state db =
    operations-set_found uuid now p device state (first (is_state_of p device) db.states) db

delivery-open : (ready : Bool) → is_open (delivery ready) ≡ true
delivery-open true = refl
delivery-open false = refl

kind-open :
    (kind : PersonKind) (id : Key)
    → holds_key
        (if is_account kind
          then (if is_account kind then some id else none)
          else if is_account kind
          then none
          else some id)
        id
      ≡ true
kind-open account id = ==_refl id
kind-open dependant id = ==_refl id

module _ (uuid : ℕ → Key) (now : ℕ) (t : Tables) (p : PersonRef) (employee_no reason : Text) where
  push-Keeps :
      (ready : Bool) (row : Key → DeviceOperation) (w : Work)
      → Keeps w (push uuid now p employee_no reason ready row w)
  push-Keeps ready row w r h = ground (
    arith,
    any-append r w.db.operations w.statements,
    any-append r w.db.operations (w.statements ++ row (uuid w.db.drawn) ∷ []),
    any-append r w.statements (row (uuid w.db.drawn) ∷ []),
  )

  push-last :
      (ready : Bool) (row : Key → DeviceOperation) (w : Work) (r : DeviceOperation → Bool)
      → ((id : Key) → r (row id) ≡ true)
      → any r (all_operations (push uuid now p employee_no reason ready row w)) ≡ true
  push-last ready row w r h = ground (
    arith,
    h (uuid w.db.drawn),
    any-append r w.db.operations (w.statements ++ row (uuid w.db.drawn) ∷ []),
    any-append r w.statements (row (uuid w.db.drawn) ∷ []),
  )

  -- A new row is open for the query that looks for it.
  person_row-open :
      (d : SyncDevice) (id : Key)
      → is_person_open d.id upsert_person p (person_row id p employee_no reason d) ≡ true
  person_row-open d id =
      ground (arith, ==_refl d.id, kind-open p.kind p.id, delivery-open (agent_can d person))

  card_row-open :
      (d : SyncDevice) (c : Card) (id : Key)
      → is_card_open d.id (card_kind c) c.id (card_row id p employee_no reason d c) ≡ true
  card_row-open d c id =
      ground (arith, ==_refl d.id, ==_refl c.id, delivery-open (agent_can d card))

  finger_row-open :
      (d : SyncDevice) (f : Finger) (id : Key)
      → is_finger_open d.id f.id (finger_row now t p reason id d f) ≡ true
  finger_row-open d f id =
      ground (arith, ==_refl d.id, ==_refl f.id, delivery-open (finger_ready now t p d f))

  queue_person-Keeps :
      (w : Work) (d : SyncDevice) → Keeps w (queue_person uuid now p employee_no reason w d)
  queue_person-Keeps w d =
      if-either (λ v. Keeps w v) (any (is_person_open d.id upsert_person p) w.db.operations)
        (λ r h. h) (push-Keeps (agent_can d person) (λ id. person_row id p employee_no reason d) w)

  -- The operations that a person's step leaves are those of its row.
  all-person_step :
      (w : Work) (d : SyncDevice)
      → all_operations (person_step uuid now p employee_no reason w d)
        ≡ all_operations (queue_person uuid now p employee_no reason w d)
  unfolding person_step
  all-person_step w d =
      ap (λ ops. ops ++ (queue_person uuid now p employee_no reason w d).statements)
        (operations-set uuid now p d.id
          (if agent_can d person then SyncState.pending else SyncState.manual)
          (queue_person uuid now p employee_no reason w d).db)

  pub person_step-Keeps :
      (w : Work) (d : SyncDevice) → Keeps w (person_step uuid now p employee_no reason w d)
  person_step-Keeps w d r h = ap (any r) (all-person_step w d) ∙ queue_person-Keeps w d r h

  pub card_step-Keeps :
      (d : SyncDevice) (w : Work) (c : Card)
      → Keeps w (card_step uuid now p employee_no reason d w c)
  unfolding card_step
  card_step-Keeps d w c =
      if-either (λ v. Keeps w v) (any (is_card_open d.id (card_kind c) c.id) w.db.operations)
        (λ r h. h) (push-Keeps (agent_can d card) (λ id. card_row id p employee_no reason d c) w)

  pub finger_step-Keeps :
      (d : SyncDevice) (w : Work) (f : Finger) → Keeps w (finger_step uuid now t p reason d w f)
  unfolding finger_step
  finger_step-Keeps d w f =
      if-either (λ v. Keeps w v) (any (is_finger_open d.id f.id) w.db.operations) (λ r h. h)
        (λ r h. ground (
          arith,
          any-append r w.db.operations w.statements,
          any-append r (w.db.operations ++ finger_row now t p reason (uuid w.db.drawn) d f ∷ [])
              w.statements,
          any-append r w.db.operations (finger_row now t p reason (uuid w.db.drawn) d f ∷ []),
        ))

  pub credentials_step-Keeps :
      (w : Work) (d : SyncDevice) → Keeps w (credentials_step uuid now t p employee_no reason w d)
  unfolding credentials_step
  credentials_step-Keeps w d r h =
      for_each-always (finger_step uuid now t p reason d) (λ v. any r (all_operations v) ≡ true)
        (fingers_for_person t p)
        (for_each (card_step uuid now p employee_no reason d) (cards_for_person t p) w)
        (λ v f. finger_step-Keeps d v f r)
        (for_each-always (card_step uuid now p employee_no reason d)
          (λ v. any r (all_operations v) ≡ true) (cards_for_person t p) w
          (λ v c. card_step-Keeps d v c r) h)

  -- After its step a person, a card or a finger is open on the terminal.
  pub person_step-covers :
      (w : Work) (d : SyncDevice)
      → any
          (is_person_open d.id upsert_person p)
          (all_operations (person_step uuid now p employee_no reason w d))
        ≡ true
  person_step-covers w d =
      ap (any (is_person_open d.id upsert_person p)) (all-person_step w d)
      ∙ (elim (Bool-cases (any (is_person_open d.id upsert_person p) w.db.operations)) [
        | inl here ↦
            rw here
              (any-left (is_person_open d.id upsert_person p) w.db.operations w.statements here)
        | inr gone ↦ rw gone (
            push-last (agent_can d person) (λ id. person_row id p employee_no reason d) w
              (is_person_open d.id upsert_person p) (person_row-open d))
      ])

  pub card_step-covers :
      (d : SyncDevice) (w : Work) (c : Card)
      → any
          (is_card_open d.id (card_kind c) c.id)
          (all_operations (card_step uuid now p employee_no reason d w c))
        ≡ true
  unfolding card_step
  card_step-covers d w c =
      elim (Bool-cases (any (is_card_open d.id (card_kind c) c.id) w.db.operations)) [
        | inl here ↦
            rw here
              (any-left (is_card_open d.id (card_kind c) c.id) w.db.operations w.statements here)
        | inr gone ↦ rw gone (
            push-last (agent_can d card) (λ id. card_row id p employee_no reason d c) w
              (is_card_open d.id (card_kind c) c.id) (card_row-open d c))
      ]

  pub finger_step-covers :
      (d : SyncDevice) (w : Work) (f : Finger)
      → any (is_finger_open d.id f.id) (all_operations (finger_step uuid now t p reason d w f))
        ≡ true
  unfolding finger_step
  finger_step-covers d w f = elim (Bool-cases (any (is_finger_open d.id f.id) w.db.operations)) [
    | inl here ↦ rw here (any-left (is_finger_open d.id f.id) w.db.operations w.statements here)
    | inr gone ↦ rw gone (
        any-left (is_finger_open d.id f.id)
          (w.db.operations ++ finger_row now t p reason (uuid w.db.drawn) d f ∷ []) w.statements
          (any-last (is_finger_open d.id f.id) w.db.operations
            (finger_row now t p reason (uuid w.db.drawn) d f)
            (finger_row-open d f (uuid w.db.drawn))))
  ]
