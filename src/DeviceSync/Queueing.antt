-- ===== src/DeviceSync/Queueing.antt =====
-- `syncPersonToDevices` of src/device-sync.ts: a person, and their cards and fingers when asked, are
-- queued for the terminals. Fingers are inserted at once, persons and cards in one batch at the end.
use estatemate_minmoe.Prelude.{
  ℕ, ◌+◌, Bool, Option, none, some, List, [], ◌∷◌, ◌++◌, if◌then◌else◌, any, length, for_each,
}
use estatemate_minmoe.Prelude.Text.{Text}
use estatemate_minmoe.Hardware.{Key}
use estatemate_minmoe.Credentials.{Card, Finger, DeviceOperation, upsert_person}
use estatemate_minmoe.DeviceSync.{PersonRef, SyncDevice, Tables, agent_can, card, person}
use estatemate_minmoe.DeviceSync.State.{
  SyncState, Db, SyncResult, Work, is_person_open, is_card_open, is_finger_open,
  set_device_person_state, tally, skip,
}
use estatemate_minmoe.DeviceSync.Rows.{
  person_row, card_kind, card_row, cards_for_person, fingers_for_person, finger_ready, finger_row,
}

module _ (uuid : ℕ → Key) (now : ℕ) (t : Tables) (p : PersonRef) (reason : Text) where
  -- `fingerprintUploadOperation`, and what the loop counts for it
  unfoldable pub finger_step : SyncDevice → Work → Finger → Work
  finger_step d w f =
      if any (is_finger_open d.id f.id) w.db.operations
      then record w { result = skip w.result }
      else record w {
        db = record w.db {
          operations = w.db.operations ++ finger_row now t p reason (uuid w.db.drawn) d f ∷ [];
          drawn = w.db.drawn + 1;
        };
        result = tally (finger_ready now t p d f) w.result;
      }

module _ (uuid : ℕ → Key) (now : ℕ) (p : PersonRef) (employee_no reason : Text) where
  -- A row goes into the batch; its id is drawn.
  abbrev pub push : Bool → (Key → DeviceOperation) → Work → Work
  push ready row w = record w {
    db = record w.db { drawn = w.db.drawn + 1 };
    statements = w.statements ++ row (uuid w.db.drawn) ∷ [];
    result = tally ready w.result;
  }

  unfoldable pub card_step : SyncDevice → Work → Card → Work
  card_step d w c =
      if any (is_card_open d.id (card_kind c) c.id) w.db.operations
      then record w { result = skip w.result }
      else push (agent_can d card) (λ id. card_row id p employee_no reason d c) w

  abbrev pub queue_person : Work → SyncDevice → Work
  queue_person w d =
      if any (is_person_open d.id upsert_person p) w.db.operations
      then record w { result = skip w.result }
      else push (agent_can d person) (λ id. person_row id p employee_no reason d) w

  unfoldable pub person_step : Work → SyncDevice → Work
  person_step w d =
      let queued = queue_person w d in
      record queued {
        db =
            set_device_person_state uuid now p d.id
              (if agent_can d person then SyncState.pending else SyncState.manual) queued.db;
      }

module _ (uuid : ℕ → Key) (now : ℕ) (t : Tables) (p : PersonRef) (employee_no reason : Text) where
  unfoldable pub credentials_step : Work → SyncDevice → Work
  credentials_step w d =
      for_each (finger_step uuid now t p reason d) (fingers_for_person t p)
        (for_each (card_step uuid now p employee_no reason d) (cards_for_person t p) w)

abbrev pub no_result : SyncResult
no_result = record {
  devices = 0;
  queued = 0;
  manual = 0;
  skipped = 0;
  removed = 0;
  unresolved = [];
}

abbrev pub begin : ℕ → Db → Work
begin devices db = record {
  db = db;
  statements = [];
  result = record no_result { devices = devices };
}

-- `env.DB.batch(statements)`
abbrev pub run_batch : Work → Db × SyncResult
run_batch w = (record w.db { operations = w.db.operations ++ w.statements }, w.result)

-- Without an employee number there is nothing to key the person by.
abbrev pub has_employee_no : PersonRef → Option Text
has_employee_no p = elim p.employee_no [
  | none ↦ none
  | some s ↦ elim s [ [] ↦ none | c ∷ r ↦ some (c ∷ r) ]
]

module _ (uuid : ℕ → Key) (now : ℕ) (t : Tables) (p : PersonRef) (reason : Text)
    (credentials : Bool) where
  abbrev pub sync_work : List SyncDevice → Text → Db → Work
  sync_work devices employee_no db =
      let persons =
        for_each (person_step uuid now p employee_no reason) devices (begin (length devices) db) in
      if credentials
      then for_each (credentials_step uuid now t p employee_no reason) devices persons
      else persons

  abbrev pub sync_for : Option Text → List SyncDevice → Db → Db × SyncResult
  sync_for none devices db = (db, record no_result { unresolved = p.id ∷ [] })
  sync_for (some employee_no) devices db = run_batch (sync_work devices employee_no db)

  -- `syncPersonToDevices` on the terminals of `syncDevices`
  unfoldable pub sync_person_to_devices : List SyncDevice → Db → Db × SyncResult
  sync_person_to_devices devices db = sync_for (has_employee_no p) devices db
