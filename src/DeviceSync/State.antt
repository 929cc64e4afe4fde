-- ===== src/DeviceSync/State.antt =====
-- What src/device-sync.ts keeps and counts: the operations that are open, and `device_person_state`
-- with `setDevicePersonState`. Times are seconds.
use estatemate_minmoe.Prelude.{
  ℕ, ◌+◌, Bool, true, false, ◌&&◌, ◌||◌, Option, none, some, List, [], ◌∷◌, ◌++◌, ◌==◌,
  if◌then◌else◌, first, update,
}
use estatemate_minmoe.Prelude.Text.{Text}
use estatemate_minmoe.Hardware.{Key, OperationStatus, holds_key}
use estatemate_minmoe.Credentials.{
  DeviceOperation, OperationKind, upload_fingerprint, delete_fingerprint_device, same_kind,
}
use estatemate_minmoe.DeviceSync.{PersonRef, PersonKind, is_account, same_person_kind}

pub data SyncState : Type 0 where
  synced pending missing manual removed : SyncState

-- A row of `device_person_state`; times are seconds.
pub record PersonState : Type 0 where
  pub id : Key
  pub person_kind : PersonKind
  pub person_id : Key
  pub device_id : Key
  pub employee_no : Option Text
  pub person_name : Text
  pub state : SyncState
  pub fingerprint_count : ℕ
  pub card_count : ℕ
  pub last_operation_id : Option Key
  pub last_error : Option Text
  pub last_synced_at : Option ℕ

pub record Db : Type 0 where
  pub operations : List DeviceOperation
  pub states : List PersonState
  pub drawn : ℕ

pub record SyncResult : Type 0 where
  pub devices : ℕ
  pub queued : ℕ
  pub manual : ℕ
  pub skipped : ℕ
  pub removed : ℕ
  pub unresolved : List Key

-- What the loops carry: the tables, the statements of the batch, and the result.
pub record Work : Type 0 where
  pub db : Db
  pub statements : List DeviceOperation
  pub result : SyncResult

-- `status IN ('pending','sent','manual_action_required')`
abbrev pub is_open : OperationStatus → Bool
is_open OperationStatus.pending = true
is_open OperationStatus.sent = true
is_open OperationStatus.manual_action_required = true
is_open _ = false

abbrev pub user_of : PersonRef → Option Key
user_of p = if is_account p.kind then some p.id else none

abbrev pub member_of : PersonRef → Option Key
member_of p = if is_account p.kind then none else some p.id

-- `openOperationExists` on `user_id` or `household_member_id`, and on `card_id`
abbrev pub is_person_open : Key → OperationKind → PersonRef → DeviceOperation → Bool
is_person_open device kind p o =
    o.device_id == device
    && same_kind o.operation kind
    && holds_key (if is_account p.kind then o.user_id else o.household_member_id) p.id
    && is_open o.status

abbrev pub is_card_open : Key → OperationKind → Key → DeviceOperation → Bool
is_card_open device kind id o =
    o.device_id == device
    && same_kind o.operation kind
    && holds_key o.card_id id
    && is_open o.status

-- The query of `fingerprintUploadOperation`
abbrev pub is_finger_open : Key → Key → DeviceOperation → Bool
is_finger_open device id o =
    o.device_id == device
    && holds_key o.fingerprint_id id
    && (same_kind o.operation upload_fingerprint || same_kind o.operation delete_fingerprint_device)
    && is_open o.status

abbrev pub is_state_of : PersonRef → Key → PersonState → Bool
is_state_of p device s =
    same_person_kind s.person_kind p.kind && s.person_id == p.id && s.device_id == device

abbrev is_synced : SyncState → Bool
is_synced synced = true
is_synced _ = false

abbrev pub new_state : Key → ℕ → PersonRef → Key → SyncState → PersonState
new_state id now p device state = record {
  id = id;
  person_kind = p.kind;
  person_id = p.id;
  device_id = device;
  employee_no = p.employee_no;
  person_name = p.name;
  state = state;
  fingerprint_count = 0;
  card_count = 0;
  last_operation_id = none;
  last_error = none;
  last_synced_at = if is_synced state then some now else none;
}

abbrev pub renewed_state : ℕ → PersonRef → SyncState → PersonState → PersonState
renewed_state now p state s = record s {
  employee_no = p.employee_no;
  person_name = p.name;
  state = state;
  last_operation_id = none;
  last_error = none;
  last_synced_at = if is_synced state then some now else s.last_synced_at;
}

module _ (uuid : ℕ → Key) (now : ℕ) where
  abbrev pub set_found : PersonRef → Key → SyncState → Option PersonState → Db → Db
  set_found p device state none db = record db {
    states = db.states ++ new_state (uuid db.drawn) now p device state ∷ [];
    drawn = db.drawn + 1;
  }
  set_found p device state (some s) db = record db {
    states = update (λ r. r.id == s.id) (renewed_state now p state) db.states;
  }

  -- `setDevicePersonState` without options, as the two loops call it
  unfoldable pub set_device_person_state : PersonRef → Key → SyncState → Db → Db
  set_device_person_state p device state db =
      set_found p device state (first (is_state_of p device) db.states) db

abbrev pub delivery : Bool → OperationStatus
delivery ready = if ready then OperationStatus.pending else OperationStatus.manual_action_required

-- `if (agentReady) result.queued += 1; else result.manual += 1;`
abbrev pub tally : Bool → SyncResult → SyncResult
tally ready r =
    if ready then record r { queued = r.queued + 1 } else record r { manual = r.manual + 1 }

abbrev pub skip : SyncResult → SyncResult
skip r = record r { skipped = r.skipped + 1 }
