-- ===== src/Fees.antt =====
-- `enforceFacilityFees` of src/index.ts: cards and fingers of a resident whose facility fee is overdue
-- beyond the grace period expire, and those that expired so are restored when nothing is overdue, unless
-- the unique index on the slots of fingers (migrations/0017_fingerprint_slot_live_unique.sql) refuses it. Times
-- are seconds, a due date is a day; `grace` is the row `facility_fee_grace_period_days` of `settings` as
-- `CAST(s.value AS INTEGER)` reads it. The column `updated_at` is left out.
pub mod Table
pub mod Fingers
pub mod Settled
pub mod Tests
use estatemate_minmoe.Prelude.{
  ℕ, ◌+◌, ◌*◌, Bool, true, false, not, ◌&&◌, ◌||◌, Option, none, some, List, [], ◌∷◌, ◌++◌, ◌==◌,
  ltb, if◌then◌else◌, any, select, update, first, for_each,
}
use estatemate_minmoe.Prelude.Text.{Text, lit, eqt}
use estatemate_minmoe.Prelude.Json.{Json, decimal}
use estatemate_minmoe.Hardware.{Key}
use estatemate_minmoe.Billing.{Bill, is_owed}
use estatemate_minmoe.Credentials.{
  Credential, CredentialStatus, Card, Finger, StatusChange, Queue, is_active, is_expired,
  disable_card, enable_card, disable_fingerprint, enable_fingerprint, create_device_operations,
  create_fingerprint_operations,
}

-- `users`: a resident's name.
pub record Resident : Type 0 where
  pub id : Key
  pub name : Text

pub record Db : Type 0 where
  pub cards : List Card
  pub fingers : List Finger
  pub card_changes : List StatusChange
  pub finger_changes : List StatusChange
  pub queue : Queue

-- What the run reads and leaves as it is.
pub record Ledger : Type 0 where
  pub bills : List Bill
  pub residents : List Resident
  pub grace : Option ℕ

-- `datetime('now') > datetime(b.due_date,'+' || CAST(s.value AS INTEGER) || ' days')`, over the join
-- with the settings row
abbrev pub is_past : ℕ → Option ℕ → ℕ → Bool
is_past now none due = false
is_past now (some grace) due = ltb ((due + grace) * 86400) now

abbrev pub is_overdue_bill : ℕ → Option ℕ → Key → Bill → Bool
is_overdue_bill now grace resident b =
    b.resident_id == resident
    && eqt b.bill_type (lit "facility_fee")
    && is_owed b.status
    && is_past now grace b.due_date

unfoldable pub is_overdue : ℕ → Ledger → Key → Bool
is_overdue now ledger resident = any (is_overdue_bill now ledger.grace resident) ledger.bills

-- The bill that the group of a credential names.
abbrev pub bill_of : ℕ → Ledger → Key → Option Key
bill_of now ledger resident =
    elim (first (is_overdue_bill now ledger.grace resident) ledger.bills) [
      | none ↦ none
      | some b ↦ some b.id
    ]

module _ {D : Type 0} where
  -- The rows that the two queries for overdue credentials find.
  abbrev pub is_late : ℕ → Ledger → Credential D → Bool
  is_late now ledger c = is_active c.status && is_overdue now ledger c.resident_id

  -- The rows that the two queries for cleared credentials find.
  abbrev pub is_cleared : ℕ → Ledger → Credential D → Bool
  is_cleared now ledger c =
      is_expired c.status && c.auto_expired && not (is_overdue now ledger c.resident_id)

  -- `SET status='expired',auto_expired=1,…`
  abbrev pub lapsed : ℕ → Credential D → Credential D
  lapsed now c = record c {
    status = CredentialStatus.expired;
    auto_expired = true;
    deactivated_at = some now;
    deactivated_reason = some (lit "unpaid facility fee");
  }

  -- `SET status='active',auto_expired=0,…`
  abbrev pub restored : Credential D → Credential D
  restored c = record c {
    status = CredentialStatus.active;
    auto_expired = false;
    deactivated_at = none;
    deactivated_reason = none;
  }

  -- `WHERE id=? AND status='active'`
  abbrev pub expire_row : ℕ → Key → List (Credential D) → List (Credential D)
  expire_row now id = update (λ c. c.id == id && is_active c.status) (lapsed now)

  -- `WHERE id=?`
  abbrev pub restore_row : Key → List (Credential D) → List (Credential D)
  restore_row id = update (λ c. c.id == id) restored

  -- A finger is read with `JOIN users`.
  abbrev pub has_resident : Ledger → Credential D → Bool
  has_resident ledger c = any (λ r. r.id == c.resident_id) ledger.residents

-- `COALESCE(household_member_id,'')` of two rows
abbrev same_member : Option Key → Option Key → Bool
same_member none none = true
same_member (some j) (some k) = j == k
same_member _ _ = false

abbrev in_slot_of : Finger → Finger → Bool
in_slot_of f c =
    c.resident_id == f.resident_id
    && same_member c.household_member_id f.household_member_id
    && c.detail.finger_no == f.detail.finger_no

abbrev is_live : CredentialStatus → Bool
is_live CredentialStatus.active = true
is_live CredentialStatus.suspended = true
is_live _ = false

-- `idx_fingerprints_person_slot_live`, the partial unique index on live fingers: another live finger has
-- the slot that `f` would take again.
abbrev pub is_blocked : Finger → List Finger → Bool
is_blocked f = any (λ c. not (c.id == f.id) && is_live c.status && in_slot_of f c)

abbrev fell_due : Key → Key → Option Key → StatusChange
fell_due change id bill = record {
  id = change;
  credential_id = id;
  old_status = CredentialStatus.active;
  new_status = CredentialStatus.expired;
  reason = lit "unpaid facility fee after grace period";
  changed_by = none;
  bill_id = bill;
}

abbrev was_cleared : Key → Key → StatusChange
was_cleared change id = record {
  id = change;
  credential_id = id;
  old_status = CredentialStatus.expired;
  new_status = CredentialStatus.active;
  reason = lit "facility fee cleared";
  changed_by = none;
  bill_id = none;
}

abbrev text_or_null : Option Text → Json
text_or_null none = Json.null
text_or_null (some s) = Json.str s

abbrev card_payload : Card → Bool → Text → List (Text × Json)
card_payload c enabled reason =
    (lit "cardUid", Json.str c.detail)
    ∷ (lit "enabled", Json.bool enabled)
    ∷ (lit "reason", Json.str reason)
    ∷ []

abbrev finger_payload : Finger → Bool → Text → List (Text × Json)
finger_payload f enabled reason =
    (lit "fingerprintId", Json.num f.id)
    ∷ (lit "fingerNo", Json.num f.detail.finger_no)
    ∷ (lit "employeeNo", text_or_null f.detail.employee_no)
    ∷ (lit "enabled", Json.bool enabled)
    ∷ (lit "reason", Json.str reason)
    ∷ []

abbrev resident_name : Ledger → Key → Text
resident_name ledger resident = elim (first (λ r. r.id == resident) ledger.residents) [
  | none ↦ []
  | some r ↦ r.name
]

abbrev disable_instruction : Ledger → Finger → Text
disable_instruction ledger f =
    lit "Remove or disable finger "
    ++ decimal f.detail.finger_no
    ++ lit " for "
    ++ resident_name ledger f.resident_id
    ++ lit
        " on the terminal (unpaid facility fee after the grace period), then mark this action applied."

abbrev enable_instruction : Ledger → Finger → Text
enable_instruction ledger f =
    lit "Re-enable finger "
    ++ decimal f.detail.finger_no
    ++ lit " for "
    ++ resident_name ledger f.resident_id
    ++ lit " on the terminal (facility fee cleared), then mark this action applied."

module _ (uuid : ℕ → Key) (now : ℕ) (ledger : Ledger) where
  -- An id is drawn for the log before the work is queued.
  abbrev draw : Queue → Queue
  draw q = record q { drawn = q.drawn + 1 }

  unfoldable pub expire_card : Db → Card → Db
  expire_card db c = record db {
    cards = expire_row now c.id db.cards;
    card_changes =
        db.card_changes
        ++ fell_due (uuid db.queue.drawn) c.id (bill_of now ledger c.resident_id) ∷ [];
    queue =
        create_device_operations uuid (draw db.queue) c.id disable_card
          (card_payload c false (lit "unpaid facility fee"));
  }

  unfoldable pub expire_finger : Db → Finger → Db
  expire_finger db f = record db {
    fingers = expire_row now f.id db.fingers;
    finger_changes = db.finger_changes ++ fell_due (uuid db.queue.drawn) f.id none ∷ [];
    queue =
        create_fingerprint_operations uuid (draw db.queue) f.id disable_fingerprint
          (finger_payload f false (lit "unpaid facility fee")) (disable_instruction ledger f) none;
  }

  unfoldable pub restore_card : Db → Card → Db
  restore_card db c = record db {
    cards = restore_row c.id db.cards;
    card_changes = db.card_changes ++ was_cleared (uuid db.queue.drawn) c.id ∷ [];
    queue =
        create_device_operations uuid (draw db.queue) c.id enable_card
          (card_payload c true (lit "facility fee cleared"));
  }

  unfoldable pub restore_finger : Db → Finger → Db
  restore_finger db f = record db {
    fingers = restore_row f.id db.fingers;
    finger_changes = db.finger_changes ++ was_cleared (uuid db.queue.drawn) f.id ∷ [];
    queue =
        create_fingerprint_operations uuid (draw db.queue) f.id enable_fingerprint
          (finger_payload f true (lit "facility fee cleared")) (enable_instruction ledger f) none;
  }

module _ (uuid : ℕ → Key) (now : ℕ) (ledger : Ledger) where
  unfoldable pub expire_cards : Db → Db
  expire_cards db = for_each (expire_card uuid now ledger) (select (is_late now ledger) db.cards) db

  unfoldable pub expire_fingers : Db → Db
  expire_fingers db =
      for_each (expire_finger uuid now ledger)
        (select (λ f. has_resident ledger f && is_late now ledger f) db.fingers) db

  unfoldable pub restore_cards : Db → Db
  restore_cards db =
      for_each (restore_card uuid now ledger) (select (is_cleared now ledger) db.cards) db

  -- The loop that restores fingers. Where the index refuses the UPDATE the run throws, with the tables as
  -- the batches before it left them; the Boolean says that it has.
  unfoldable pub restore_each : List Finger → Db → Db × Bool
  restore_each [] db = (db, false)
  restore_each (f ∷ fs) db =
      let rest = restore_each fs (restore_finger uuid now ledger db f) in
      if is_blocked f db.fingers then (db, true) else rest

  unfoldable pub restore_fingers : Db → Db × Bool
  restore_fingers db =
      restore_each (select (λ f. has_resident ledger f && is_cleared now ledger f) db.fingers) db

  -- `enforceFacilityFees`
  unfoldable pub enforce_facility_fees : Db → Db × Bool
  enforce_facility_fees db = restore_fingers (restore_cards (expire_fingers (expire_cards db)))
