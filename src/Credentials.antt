-- ===== src/Credentials.antt =====
-- The credentials of src/index.ts (`access_cards`, `fingerprint_credentials`), the logs of their status,
-- and the work for terminals that `createDeviceOperations` and `createFingerprintOperations` put into
-- `device_operations`. Times are seconds; `uuid n` is the n-th id that `crypto.randomUUID` gives, and a
-- payload is kept as its fields, before `JSON.stringify`.
use estatemate_minmoe.Prelude.{
  ℕ, ◌+◌, Bool, true, false, ◌&&◌, Option, none, some, List, [], ◌∷◌, ◌++◌, ◌==◌, if◌then◌else◌,
  select, take, length,
}
use estatemate_minmoe.Prelude.Text.{Text}
use estatemate_minmoe.Prelude.Json.{Json}
use estatemate_minmoe.Hardware.{Key, Device, OperationStatus, is_enabled, is_pending_pattern}

pub data CredentialStatus : Type 0 where
  active expired suspended revoked : CredentialStatus

abbrev pub is_active : CredentialStatus → Bool
is_active CredentialStatus.active = true
is_active _ = false

abbrev pub is_expired : CredentialStatus → Bool
is_expired CredentialStatus.expired = true
is_expired _ = false

-- A row of `access_cards` or `fingerprint_credentials`; `detail` has the columns of one of the two.
pub record Credential (D : Type 0) : Type 0 where
  pub id : Key
  pub resident_id : Key
  pub household_member_id : Option Key
  pub detail : D
  pub status : CredentialStatus
  pub auto_expired : Bool
  pub deactivated_at : Option ℕ
  pub deactivated_reason : Option Text

pub record Slot : Type 0 where
  pub finger_no : ℕ
  pub finger_label : Option Text
  pub employee_no : Option Text

-- `card_uid` is the detail of a card.
abbrev pub Card : Type 0
Card = Credential Text

abbrev pub Finger : Type 0
Finger = Credential Slot

-- A row of `card_status_changes` or `fingerprint_status_changes`.
pub record StatusChange : Type 0 where
  pub id : Key
  pub credential_id : Key
  pub old_status : CredentialStatus
  pub new_status : CredentialStatus
  pub reason : Text
  pub changed_by : Option Key
  pub bill_id : Option Key

pub data OperationKind : Type 0 where
  upsert_card enable_card disable_card delete_card : OperationKind
  enroll_fingerprint enable_fingerprint disable_fingerprint delete_fingerprint : OperationKind
  upload_fingerprint delete_fingerprint_device upsert_person delete_person : OperationKind

abbrev pub kind_code : OperationKind → ℕ
kind_code upsert_card = 0
kind_code enable_card = 1
kind_code disable_card = 2
kind_code delete_card = 3
kind_code enroll_fingerprint = 4
kind_code enable_fingerprint = 5
kind_code disable_fingerprint = 6
kind_code delete_fingerprint = 7
kind_code upload_fingerprint = 8
kind_code delete_fingerprint_device = 9
kind_code upsert_person = 10
kind_code delete_person = 11

abbrev pub same_kind : OperationKind → OperationKind → Bool
same_kind a b = kind_code a == kind_code b

-- The body of a person for a terminal, without its constants: `userType` is normal, `Valid` does not
-- expire, and the plan template of each door is 1.
pub record PersonBody : Type 0 where
  pub employee_no : Text
  pub name : Text
  pub door_right : Text
  pub right_plan : List ℕ
  pub door_numbers : List ℕ
  pub is_account : Bool
  pub person_id : Key
  pub reason : Text

pub data Payload : Type 0 where
  object : List (Text × Json) → Payload
  person : PersonBody → Payload

-- A row of `device_operations`.
pub record DeviceOperation : Type 0 where
  pub id : Key
  pub device_id : Key
  pub user_id : Option Key
  pub household_member_id : Option Key
  pub card_id : Option Key
  pub fingerprint_id : Option Key
  pub capture_id : Option Key
  pub operation : OperationKind
  pub payload : Payload
  pub status : OperationStatus
  pub manual_instruction : Option Text

-- The terminals, the work queued for them, and how many ids have been drawn.
pub record Queue : Type 0 where
  pub devices : List Device
  pub operations : List DeviceOperation
  pub drawn : ℕ

abbrev pub card_status : Device → OperationStatus
card_status d =
    if is_pending_pattern d.connection_pattern
    then OperationStatus.pending
    else OperationStatus.manual_action_required

module _ (uuid : ℕ → Key) where
  abbrev pub card_rows :
      Key → OperationKind → List (Text × Json) → ℕ → List Device → List DeviceOperation
  card_rows card kind payload drawn [] = []
  card_rows card kind payload drawn (d ∷ ds) =
      record {
        id = uuid drawn;
        device_id = d.id;
        user_id = none;
        household_member_id = none;
        card_id = some card;
        fingerprint_id = none;
        capture_id = none;
        operation = kind;
        payload = object payload;
        status = card_status d;
        manual_instruction = none;
      }
      ∷ card_rows card kind payload (drawn + 1) ds

  abbrev pub fingerprint_rows :
      Key → OperationKind → List (Text × Json) → Text → ℕ → List Device → List DeviceOperation
  fingerprint_rows finger kind payload instruction drawn [] = []
  fingerprint_rows finger kind payload instruction drawn (d ∷ ds) =
      record {
        id = uuid drawn;
        device_id = d.id;
        user_id = none;
        household_member_id = none;
        card_id = none;
        fingerprint_id = some finger;
        capture_id = none;
        operation = kind;
        payload = object payload;
        status = OperationStatus.manual_action_required;
        manual_instruction = some (take 1000 instruction);
      }
      ∷ fingerprint_rows finger kind payload instruction (drawn + 1) ds

  abbrev queued : List DeviceOperation → Queue → Queue
  queued rows q = record q { operations = q.operations ++ rows; drawn = q.drawn + length rows }

  -- `createDeviceOperations`
  unfoldable pub create_device_operations : Queue → Key → OperationKind → List (Text × Json) → Queue
  create_device_operations q card kind payload =
      queued (card_rows card kind payload q.drawn (select is_enabled q.devices)) q

  -- `? IS NULL OR id=?`
  abbrev is_chosen : Option Key → Device → Bool
  is_chosen none d = true
  is_chosen (some k) d = d.id == k

  -- `createFingerprintOperations`, without the number it returns
  unfoldable pub create_fingerprint_operations :
      Queue → Key → OperationKind → List (Text × Json) → Text → Option Key → Queue
  create_fingerprint_operations q finger kind payload instruction device =
      queued
        (fingerprint_rows finger kind payload instruction q.drawn
          (select (λ d. is_enabled d && is_chosen device d) q.devices))
        q
