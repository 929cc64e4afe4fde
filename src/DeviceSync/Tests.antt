-- ===== src/DeviceSync/Tests.antt =====
-- The theorems on src/device-sync.ts at one person and two terminals, and runs of the code.
use estatemate_minmoe.Prelude.{◌+◌, true, false, none, some, List, [], ◌∷◌, map, ◌≡◌, refl}
use estatemate_minmoe.Prelude.Text.{
  Text, lit, trim, trim_start, to_lower, eqt, lower_unit, is_space,
}
use estatemate_minmoe.Hardware.{OperationStatus}
use estatemate_minmoe.Credentials.{CredentialStatus, DeviceOperation}
use estatemate_minmoe.DeviceSync.{
  Tables, SyncDevice, PersonRef, account, agent_can, parse_capabilities, door_numbers_of,
  sync_devices,
}
use estatemate_minmoe.DeviceSync.State.{Db, PersonState, SyncState, set_device_person_state}
use estatemate_minmoe.DeviceSync.Rows.{cards_for_person, fingers_for_person}
use estatemate_minmoe.DeviceSync.Queueing.{
  person_step, card_step, credentials_step, sync_person_to_devices,
}
use estatemate_minmoe.DeviceSync.Again.{again-sync_person_to_devices}
use estatemate_minmoe.DeviceSync.Removal.{removal_step, remove_person_from_devices}
use estatemate_minmoe.DeviceSync.Overview.{OverviewPerson, Sums}
use estatemate_minmoe.DeviceSync.Counted.{Agrees, overview_totals-device_totals}

-- Terminal 1 has an agent that can write persons, terminal 2 has none; the person has one card.
abbrev tables : Tables
tables = record {
  devices =
      record {
        id = 1;
        name = lit "North";
        gate_name = lit "A";
        connection_pattern = lit "isapi_bridge";
        is_enabled = true;
      }
      ∷ record {
        id = 2;
        name = lit "South";
        gate_name = lit "B";
        connection_pattern = lit "manual";
        is_enabled = true;
      }
      ∷ [];
  agents = record { id = 7; capabilities = some (lit "x"); is_deleted = false } ∷ [];
  configs = record { device_id = 1; agent_id = some 7; sync_enabled = true } ∷ [];
  points =
      record { device_id = 1; hikvision_channel = some 2; enabled = true }
      ∷ record { device_id = 1; hikvision_channel = some 2; enabled = true }
      ∷ record { device_id = 1; hikvision_channel = some 9; enabled = true }
      ∷ [];
  cards =
      record {
        id = 61;
        resident_id = 5;
        household_member_id = none;
        detail = lit "A1";
        status = CredentialStatus.active;
        auto_expired = false;
        deactivated_at = none;
        deactivated_reason = none;
      }
      ∷ [];
  fingers = [];
  captures = [];
}

-- A reading of arrays for the test: every text is the array of these two.
abbrev read_array : Text → List Text
read_array s = lit " Person" ∷ lit "card" ∷ []

abbrev terminals : List SyncDevice
terminals = sync_devices (λ s. some (read_array s)) (λ ds. ds) tables none

abbrev ada : PersonRef
ada = record { kind = account; id = 5; name = lit "Ada"; employee_no = some (lit "RES-1") }

abbrev empty : Db
empty = record { operations = []; states = []; drawn = 0 }

abbrev once : Db
once = (sync_person_to_devices (λ n. 100 + n) 50 tables ada (lit "test") true terminals empty).0

doors : map SyncDevice.door_numbers terminals ≡ (2 ∷ []) ∷ (1 ∷ []) ∷ []
unfolding sync_devices door_numbers_of
doors = refl

once_statuses :
    map DeviceOperation.status once.operations
    ≡ OperationStatus.pending ∷ OperationStatus.manual_action_required ∷ OperationStatus.pending
      ∷ OperationStatus.manual_action_required ∷ []
unfolding sync_person_to_devices sync_devices person_step card_step credentials_step
    set_device_person_state agent_can parse_capabilities cards_for_person fingers_for_person eqt
    to_lower lower_unit trim trim_start is_space
once_statuses = refl

once_states : map PersonState.state once.states ≡ SyncState.pending ∷ SyncState.manual ∷ []
unfolding sync_person_to_devices sync_devices person_step card_step credentials_step
    set_device_person_state agent_can parse_capabilities cards_for_person fingers_for_person eqt
    to_lower lower_unit trim trim_start is_space
once_states = refl

removed_count :
    (remove_person_from_devices (λ n. 200 + n) 60 ada (lit "test") true terminals once).1.removed
    ≡ 2
unfolding remove_person_from_devices removal_step sync_devices set_device_person_state
    sync_person_to_devices credentials_step fingers_for_person cards_for_person card_step
    person_step agent_can parse_capabilities trim is_space to_lower eqt
removed_count = refl

again-sync_person_to_devices_example :
    (let twice =
        sync_person_to_devices (λ n. 100 + n) 70 tables ada (lit "again") true terminals once in
      (twice.0.operations ≡ once.operations) × (twice.1.queued ≡ 0) × (twice.1.manual ≡ 0))
again-sync_person_to_devices_example =
    again-sync_person_to_devices (λ n. 100 + n) 50 70 tables ada (lit "test") (lit "again") true
      terminals empty

abbrev people : List OverviewPerson
people =
    record {
      kind = account;
      id = 5;
      name = lit "Ada";
      employee_no = none;
      cards = 1;
      fingerprints = 0;
    }
    ∷ record {
      kind = account;
      id = 6;
      name = lit "Ben";
      employee_no = none;
      cards = 0;
      fingerprints = 0;
    }
    ∷ []

overview_totals-device_totals_example :
    Agrees Sums.synced SyncState.synced once.states people terminals
    × Agrees Sums.pending SyncState.pending once.states people terminals
    × Agrees Sums.manual SyncState.manual once.states people terminals
    × Agrees Sums.missing SyncState.missing once.states people terminals
overview_totals-device_totals_example = overview_totals-device_totals once.states people terminals
