-- ===== src/DeviceSync/Removal.antt =====
-- `removePersonFromDevices` of src/device-sync.ts: a person is removed from terminals, with all that is
-- linked to them unless told otherwise.
use estatemate_minmoe.Prelude.{
  ℕ, ◌+◌, Bool, none, some, List, [], ◌∷◌, ◌++◌, if◌then◌else◌, any, length, for_each,
}
use estatemate_minmoe.Prelude.Text.{Text, lit}
use estatemate_minmoe.Prelude.Json.{Json}
use estatemate_minmoe.Hardware.{Key}
use estatemate_minmoe.Credentials.{DeviceOperation, delete_person, object}
use estatemate_minmoe.DeviceSync.{PersonRef, is_account, SyncDevice, agent_can, person}
use estatemate_minmoe.DeviceSync.State.{
  SyncState, Db, SyncResult, Work, user_of, member_of, is_person_open, set_device_person_state,
  delivery, skip,
}
use estatemate_minmoe.DeviceSync.Rows.{instruction_unless}
use estatemate_minmoe.DeviceSync.Queueing.{push, no_result, begin, run_batch, has_employee_no}

abbrev removal_fields : PersonRef → Text → Text → Bool → List (Text × Json)
removal_fields p employee_no reason full =
    (lit "employeeNo", Json.str employee_no)
    ∷ (lit "name", Json.str p.name)
    ∷ (lit "personKind", Json.str (if is_account p.kind then lit "account" else lit "dependant"))
    ∷ (lit "personId", Json.num p.id)
    ∷ (lit "fullRemoval", Json.bool full)
    ∷ (lit "reason", Json.str reason)
    ∷ []

abbrev removal_instruction : PersonRef → Text → SyncDevice → Bool → Text
removal_instruction p employee_no d full =
    lit "Delete "
    ++ p.name
    ++ lit " (employee number "
    ++ employee_no
    ++ lit ")"
    ++ (if full then lit " and every card and fingerprint linked to them" else [])
    ++ lit " from "
    ++ d.name
    ++ lit ", then mark this action applied."

abbrev removal_row : Key → PersonRef → Text → Text → Bool → SyncDevice → DeviceOperation
removal_row id p employee_no reason full d = record {
  id = id;
  device_id = d.id;
  user_id = user_of p;
  household_member_id = member_of p;
  card_id = none;
  fingerprint_id = none;
  capture_id = none;
  operation = delete_person;
  payload = object (removal_fields p employee_no reason full);
  status = delivery (agent_can d person);
  manual_instruction =
      instruction_unless (agent_can d person) (removal_instruction p employee_no d full);
}

module _ (uuid : ℕ → Key) (now : ℕ) (p : PersonRef) (reason : Text) (full : Bool) where
  abbrev queue_removal : Text → Work → SyncDevice → Work
  queue_removal employee_no w d =
      if any (is_person_open d.id delete_person p) w.db.operations
      then record w { result = skip w.result }
      else push uuid now p employee_no reason (agent_can d person)
          (λ id. removal_row id p employee_no reason full d) w

  unfoldable pub removal_step : Text → Work → SyncDevice → Work
  removal_step employee_no w d =
      let queued = queue_removal employee_no w d in
      record queued {
        db = set_device_person_state uuid now p d.id SyncState.removed queued.db;
        result = record queued.result { removed = queued.result.removed + 1 };
      }

  -- `removePersonFromDevices` on the terminals of `syncDevices`
  unfoldable pub remove_person_from_devices : List SyncDevice → Db → Db × SyncResult
  remove_person_from_devices devices db = elim (has_employee_no p) [
    | none ↦ (db, record no_result { unresolved = p.id ∷ [] })
    | some employee_no ↦
        run_batch (for_each (removal_step employee_no) devices (begin (length devices) db))
  ]
