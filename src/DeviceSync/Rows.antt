-- ===== src/DeviceSync/Rows.antt =====
-- The rows that src/device-sync.ts queues: a person, a card and a finger, with their instructions.
use estatemate_minmoe.Prelude.{
  ℕ, Bool, not, ◌&&◌, Option, none, some, List, [], ◌∷◌, ◌++◌, ◌==◌, ltb, if◌then◌else◌, select,
  take, newest,
}
use estatemate_minmoe.Prelude.Text.{Text, lit, trim}
use estatemate_minmoe.Prelude.Json.{Json, decimal}
use estatemate_minmoe.Hardware.{Key, is_null, holds_key}
use estatemate_minmoe.Credentials.{
  Credential, Card, Finger, CredentialStatus, is_active, DeviceOperation, OperationKind,
  upsert_card, disable_card, upsert_person, upload_fingerprint, delete_fingerprint_device,
  same_kind, Payload, object,
}
use estatemate_minmoe.DeviceSync.{
  PersonRef, is_account, SyncDevice, Tables, Capture, agent_can, card, person, fingerprint,
}
use estatemate_minmoe.Credentials
use estatemate_minmoe.DeviceSync.State.{user_of, member_of, delivery}

-- `numbers.join(separator)`
abbrev join : Text → List ℕ → Text
join separator [] = []
join separator (n ∷ []) = decimal n
join separator (n ∷ m ∷ ns) = decimal n ++ separator ++ join separator (m ∷ ns)

abbrev pub instruction_unless : Bool → Text → Option Text
instruction_unless ready s = if ready then none else some (take 1000 s)

-- `personBody`
unfoldable pub person_body : PersonRef → Text → SyncDevice → Text → Credentials.PersonBody
person_body p employee_no d reason = record {
  employee_no = employee_no;
  name = p.name;
  door_right = join (lit ",") d.door_numbers;
  right_plan = d.door_numbers;
  door_numbers = d.door_numbers;
  is_account = is_account p.kind;
  person_id = p.id;
  reason = reason;
}

abbrev person_instruction : PersonRef → Text → SyncDevice → Text
person_instruction p employee_no d =
    lit "Add or update "
    ++ p.name
    ++ lit " (employee number "
    ++ employee_no
    ++ lit ") on "
    ++ d.name
    ++ lit " with door rights "
    ++ join (lit ", ") d.door_numbers
    ++ lit ", then mark this action applied."

abbrev pub person_row : Key → PersonRef → Text → Text → SyncDevice → DeviceOperation
person_row id p employee_no reason d = record {
  id = id;
  device_id = d.id;
  user_id = user_of p;
  household_member_id = member_of p;
  card_id = none;
  fingerprint_id = none;
  capture_id = none;
  operation = upsert_person;
  payload = Payload.person (person_body p employee_no d reason);
  status = delivery (agent_can d person);
  manual_instruction = instruction_unless (agent_can d person) (person_instruction p employee_no d);
}

abbrev pub card_kind : Card → OperationKind
card_kind c = if is_active c.status then upsert_card else disable_card

abbrev key_or_null : Option Key → Json
key_or_null none = Json.null
key_or_null (some k) = Json.num k

abbrev text_or_null : Option Text → Json
text_or_null none = Json.null
text_or_null (some s) = Json.str s

abbrev card_fields : PersonRef → Text → Text → Card → List (Text × Json)
card_fields p employee_no reason c =
    (lit "cardUid", Json.str c.detail)
    ∷ (lit "employeeNo", Json.str employee_no)
    ∷ (lit "residentId", key_or_null (user_of p))
    ∷ (lit "householdMemberId", key_or_null (member_of p))
    ∷ (lit "enabled", Json.bool (is_active c.status))
    ∷ (lit "reason", Json.str reason)
    ∷ []

abbrev pub card_row : Key → PersonRef → Text → Text → SyncDevice → Card → DeviceOperation
card_row id p employee_no reason d c = record {
  id = id;
  device_id = d.id;
  user_id = none;
  household_member_id = none;
  card_id = some c.id;
  fingerprint_id = none;
  capture_id = none;
  operation = card_kind c;
  payload = object (card_fields p employee_no reason c);
  status = delivery (agent_can d card);
  manual_instruction = none;
}

-- `resident_id=? AND household_member_id IS NULL`, or `household_member_id=?`
abbrev pub belongs_to : PersonRef → Key → Option Key → Bool
belongs_to p resident member =
    if is_account p.kind then resident == p.id && is_null member else holds_key member p.id

-- `credentialsForPerson`
unfoldable pub cards_for_person : Tables → PersonRef → List Card
cards_for_person t p = select (λ c. belongs_to p c.resident_id c.household_member_id) t.cards

unfoldable pub fingers_for_person : Tables → PersonRef → List Finger
fingers_for_person t p = select (λ f. belongs_to p f.resident_id f.household_member_id) t.fingers

-- `heldTemplateFor`
unfoldable pub held_template_for : ℕ → Tables → PersonRef → ℕ → Option Capture
held_template_for now t p finger =
    newest
      (λ c.
        belongs_to p c.resident_id c.household_member_id
        && c.finger_no == finger
        && c.is_captured
        && not (is_null c.template_data)
        && ltb now c.expires_at)
      Capture.updated_at t.captures

abbrev pub held_for : ℕ → Tables → PersonRef → Finger → Option Capture
held_for now t p f =
    if is_active f.status then held_template_for now t p f.detail.finger_no else none

abbrev pub capture_key : Option Capture → Option Key
capture_key none = none
capture_key (some c) = some c.id

abbrev pub finger_ready : ℕ → Tables → PersonRef → SyncDevice → Finger → Bool
finger_ready now t p d f = agent_can d fingerprint && not (is_null (held_for now t p f))

-- `finger.finger_label?.trim() || …`
abbrev label_or : ℕ → Text → Text
label_or n [] = lit "finger " ++ decimal n
label_or n (c ∷ s) = c ∷ s

abbrev finger_label : Finger → Text
finger_label f = elim f.detail.finger_label [
  | none ↦ label_or f.detail.finger_no []
  | some s ↦ label_or f.detail.finger_no (trim s)
]

-- `finger.employee_no ?? person.employeeNo`
abbrev finger_employee : PersonRef → Finger → Option Text
finger_employee p f = elim f.detail.employee_no [ none ↦ p.employee_no | some s ↦ some s ]

-- A null printed in a text is `null`.
abbrev shown : Option Text → Text
shown none = lit "null"
shown (some s) = s

abbrev with_number : Option Text → Text
with_number none = []
with_number (some []) = []
with_number (some (c ∷ s)) = lit " and employee number " ++ c ∷ s

abbrev finger_instruction : PersonRef → SyncDevice → Finger → Option Capture → Text
finger_instruction p d f (some held) =
    lit "Send the captured template for "
    ++ finger_label f
    ++ lit " for "
    ++ p.name
    ++ lit " on "
    ++ d.name
    ++ lit " using employee number "
    ++ shown (finger_employee p f)
    ++ lit " and finger slot "
    ++ decimal f.detail.finger_no
    ++ lit ", then mark this action applied."
finger_instruction p d f none =
    lit "Enrol "
    ++ finger_label f
    ++ lit " for "
    ++ p.name
    ++ lit " on "
    ++ d.name
    ++ lit
        ": the finger has to be on the terminal's own reader (no template is held for this slot yet), using finger slot "
    ++ decimal f.detail.finger_no
    ++ with_number (finger_employee p f)
    ++ lit ". Then mark this action applied."

abbrev finger_fields : PersonRef → Text → Finger → Option Capture → List (Text × Json)
finger_fields p reason f held =
    (lit "fingerprintId", Json.num f.id)
    ∷ (lit "fingerNo", Json.num f.detail.finger_no)
    ∷ (lit "employeeNo", text_or_null (finger_employee p f))
    ∷ (lit "personName", Json.str p.name)
    ∷ (lit "personKind", Json.str (if is_account p.kind then lit "account" else lit "dependant"))
    ∷ (lit "personId", Json.num p.id)
    ∷ (lit "captureId", key_or_null (capture_key held))
    ∷ (lit "enabled", Json.bool (is_active f.status))
    ∷ (lit "reason", Json.str reason)
    ∷ []

module _ (now : ℕ) (t : Tables) (p : PersonRef) (reason : Text) where
  abbrev pub finger_row : Key → SyncDevice → Finger → DeviceOperation
  finger_row id d f = record {
    id = id;
    device_id = d.id;
    user_id = none;
    household_member_id = none;
    card_id = none;
    fingerprint_id = some f.id;
    capture_id = capture_key (held_for now t p f);
    operation = upload_fingerprint;
    payload = object (finger_fields p reason f (held_for now t p f));
    status = delivery (finger_ready now t p d f);
    manual_instruction =
        instruction_unless (finger_ready now t p d f)
          (finger_instruction p d f (held_for now t p f));
  }
