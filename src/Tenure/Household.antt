-- ===== src/Tenure/Household.antt =====
-- `deactivatePrimaryHousehold` of src/index.ts: when a main tenancy ends, its household is deactivated
-- with the cards and fingers of its members.
pub mod Suspended
use estatemate_minmoe.Prelude.{
  ℕ, ◌+◌, Bool, true, false, ◌&&◌, ◌||◌, Option, none, some, List, [], ◌∷◌, ◌++◌, ◌==◌,
  if◌then◌else◌, any, select, update, for_each,
}
use estatemate_minmoe.Prelude.Text.{Text, lit}
use estatemate_minmoe.Prelude.Json.{Json, decimal}
use estatemate_minmoe.Hardware.{Key, holds_key}
use estatemate_minmoe.Credentials.{
  Credential, CredentialStatus, Card, Finger, StatusChange, Queue, is_active, disable_card,
  disable_fingerprint, create_device_operations, create_fingerprint_operations,
}
use estatemate_minmoe.Tenure.{Member, MemberStatus}

pub record Db : Type 0 where
  pub members : List Member
  pub cards : List Card
  pub fingers : List Finger
  pub card_changes : List StatusChange
  pub finger_changes : List StatusChange
  pub queue : Queue

abbrev pub is_household : Key → Key → Member → Bool
is_household property primary m = m.property_id == property && m.primary_resident_id == primary

-- `status IN ('pending','active')`
abbrev pub is_open_member : Member → Bool
is_open_member m = elim m.status [
  | MemberStatus.pending ↦ true
  | MemberStatus.active ↦ true
  | _ ↦ false
]

abbrev pub deactivated : Option Key → ℕ → Member → Member
deactivated actor now m = record m {
  status = MemberStatus.inactive;
  deactivated_by = actor;
  deactivated_at = some now;
}

module _ {D : Type 0} where
  -- An active credential whose member is of the household.
  abbrev pub is_of_household : List Member → Key → Key → Credential D → Bool
  is_of_household members property primary c =
      is_active c.status
      && any (λ m. holds_key c.household_member_id m.id && is_household property primary m) members

  -- `SET status='suspended',…`
  abbrev pub suspended : ℕ → Credential D → Credential D
  suspended now c = record c {
    status = CredentialStatus.suspended;
    deactivated_at = some now;
    deactivated_reason = some (lit "main tenancy ended");
  }

  -- `WHERE id=?`
  abbrev pub suspend_row : ℕ → Key → List (Credential D) → List (Credential D)
  suspend_row now id = update (λ c. c.id == id) (suspended now)

abbrev suspension : Key → Key → Option Key → StatusChange
suspension change id actor = record {
  id = change;
  credential_id = id;
  old_status = CredentialStatus.active;
  new_status = CredentialStatus.suspended;
  reason = lit "main tenancy ended";
  changed_by = actor;
  bill_id = none;
}

abbrev card_fields : Card → List (Text × Json)
card_fields c =
    (lit "cardUid", Json.str c.detail)
    ∷ (lit "enabled", Json.bool false)
    ∷ (lit "reason", Json.str (lit "main tenancy ended"))
    ∷ []

abbrev text_or_null : Option Text → Json
text_or_null none = Json.null
text_or_null (some s) = Json.str s

abbrev finger_fields : Finger → List (Text × Json)
finger_fields f =
    (lit "fingerprintId", Json.num f.id)
    ∷ (lit "fingerNo", Json.num f.detail.finger_no)
    ∷ (lit "employeeNo", text_or_null f.detail.employee_no)
    ∷ (lit "enabled", Json.bool false)
    ∷ (lit "reason", Json.str (lit "main tenancy ended"))
    ∷ []

abbrev finger_instruction : Finger → Text
finger_instruction f =
    lit "Remove or disable finger "
    ++ decimal f.detail.finger_no
    ++ lit " on the terminal (main tenancy ended), then mark this action applied."

module _ (uuid : ℕ → Key) (now : ℕ) (actor : Option Key) where
  -- An id is drawn for the log before the work is queued.
  abbrev draw : Queue → Queue
  draw q = record q { drawn = q.drawn + 1 }

  unfoldable pub suspend_card : Db → Card → Db
  suspend_card db c = record db {
    cards = suspend_row now c.id db.cards;
    card_changes = db.card_changes ++ suspension (uuid db.queue.drawn) c.id actor ∷ [];
    queue = create_device_operations uuid (draw db.queue) c.id disable_card (card_fields c);
  }

  unfoldable pub suspend_finger : Db → Finger → Db
  suspend_finger db f = record db {
    fingers = suspend_row now f.id db.fingers;
    finger_changes = db.finger_changes ++ suspension (uuid db.queue.drawn) f.id actor ∷ [];
    queue =
        create_fingerprint_operations uuid (draw db.queue) f.id disable_fingerprint
          (finger_fields f) (finger_instruction f) none;
  }

  -- `deactivatePrimaryHousehold`: both lists are read before anything is changed.
  unfoldable pub deactivate_primary_household : Key → Key → Db → Db
  deactivate_primary_household property primary db =
      let cards = select (is_of_household db.members property primary) db.cards in
      let fingers = select (is_of_household db.members property primary) db.fingers in
      let closed = record db {
        members =
            update (λ m. is_household property primary m && is_open_member m)
              (deactivated actor now) db.members;
      } in
      for_each suspend_finger fingers (for_each suspend_card cards closed)
