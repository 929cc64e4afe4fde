-- ===== src/Fees/Tests.antt =====
-- The theorems on the fees of src/index.ts at a small estate, and a run of it.
use estatemate_minmoe.Prelude.{
  ◌+◌, Bool, true, false, none, some, [], ◌∷◌, ◌≡◌, refl, map, ◌==◌, if◌then◌else◌,
}
use estatemate_minmoe.Prelude.Text.{lit, eqt}
use estatemate_minmoe.Hardware.{Key, DeviceStatus}
use estatemate_minmoe.Credentials.{
  Credential, Card, Finger, CredentialStatus, create_device_operations,
  create_fingerprint_operations, DeviceOperation,
}
use estatemate_minmoe.Billing.{Bill, BillStatus}
use estatemate_minmoe.Fees.{
  Db, Ledger, is_overdue, expire_card, expire_finger, restore_card, restore_finger, expire_cards,
  expire_fingers, restore_cards, restore_fingers, restore_each, enforce_facility_fees,
}
use estatemate_minmoe.Fees.Fingers.{Ends}
use estatemate_minmoe.Fees.Settled.{
  is_settled, enforce_facility_fees-settled, twice-enforce_facility_fees,
}

abbrev fee : Key → Key → BillStatus → Bill
fee id resident status = record {
  id = id;
  property_id = some 1;
  resident_id = resident;
  amount_minor = 500;
  currency = lit "NGN";
  due_date = 10;
  status = status;
  bill_type = lit "facility_fee";
  description = [];
}

-- Resident 5 owes a fee that was due on day 10; resident 6 has paid.
abbrev ledger : Ledger
ledger = record {
  bills = fee 31 5 BillStatus.unpaid ∷ fee 32 6 BillStatus.paid ∷ [];
  residents = record { id = 5; name = lit "Ada" } ∷ record { id = 6; name = lit "Ben" } ∷ [];
  grace = some 7;
}

abbrev owed_card : Card
owed_card = record {
  id = 11;
  resident_id = 5;
  household_member_id = none;
  detail = lit "A1";
  status = CredentialStatus.active;
  auto_expired = false;
  deactivated_at = none;
  deactivated_reason = none;
}

abbrev cleared_card : Card
cleared_card = record owed_card {
  id = 12;
  resident_id = 6;
  status = CredentialStatus.expired;
  auto_expired = true;
  deactivated_at = some 99;
}

abbrev owed_finger : Finger
owed_finger = record {
  id = 13;
  resident_id = 5;
  household_member_id = none;
  detail = record { finger_no = 2; finger_label = none; employee_no = some (lit "RES-1") };
  status = CredentialStatus.active;
  auto_expired = false;
  deactivated_at = none;
  deactivated_reason = none;
}

abbrev estate : Db
estate = record {
  cards = owed_card ∷ cleared_card ∷ [];
  fingers = owed_finger ∷ [];
  card_changes = [];
  finger_changes = [];
  queue = record {
    devices =
        record {
          id = 41;
          connection_pattern = lit "isapi_bridge";
          status = DeviceStatus.online;
          deleted_at = none;
          last_seen_at = none;
          isapi_agent_id = none;
        }
        ∷ [];
    operations = [];
    drawn = 0;
  };
}

-- A finger of resident 6 that expired for a fee, and a live one that has its slot now.
abbrev lapsed_finger : Finger
lapsed_finger = record owed_finger {
  id = 14;
  resident_id = 6;
  status = CredentialStatus.expired;
  auto_expired = true;
}

abbrev taken_estate : Db
taken_estate = record estate {
  fingers = owed_finger ∷ lapsed_finger ∷ record owed_finger { id = 15; resident_id = 6 } ∷ [];
}

-- The time is day 18.
abbrev run : Db × Bool
run = enforce_facility_fees (λ n. 1000 + n) 1555200 ledger estate

run_cards :
    map Credential.status run.0.cards ≡ CredentialStatus.expired ∷ CredentialStatus.active ∷ []
unfolding enforce_facility_fees expire_cards expire_fingers restore_cards restore_fingers
    restore_each expire_card expire_finger restore_card restore_finger is_overdue eqt
run_cards = refl

run_work : map DeviceOperation.id run.0.queue.operations ≡ 1001 ∷ 1003 ∷ 1005 ∷ []
unfolding enforce_facility_fees expire_cards expire_fingers restore_cards restore_fingers
    restore_each expire_card expire_finger restore_card restore_finger is_overdue eqt
    create_device_operations create_fingerprint_operations
run_work = refl

abbrev taken_run : Db × Bool
taken_run = enforce_facility_fees (λ n. 1000 + n) 1555200 ledger taken_estate

-- The slot is taken: the run throws, and the finger stays expired.
taken_run_throws :
    (taken_run.1 ≡ true)
    × (map Credential.status taken_run.0.fingers
        ≡ CredentialStatus.expired ∷ CredentialStatus.expired ∷ CredentialStatus.active ∷ [])
unfolding enforce_facility_fees expire_cards expire_fingers restore_cards restore_fingers
    restore_each expire_card expire_finger restore_card restore_finger is_overdue eqt
taken_run_throws = (refl, refl)

enforce_facility_fees-settled_example :
    (is_settled 1555200 ledger taken_run.0 ≡ true) × Ends (λ n. 1000 + n) 1555200 ledger taken_run
enforce_facility_fees-settled_example =
    enforce_facility_fees-settled (λ n. 1000 + n) 1555200 ledger (λ k. if k == 11 then 5 else 6)
      taken_estate refl refl

twice-enforce_facility_fees_example :
    enforce_facility_fees (λ n. 1000 + n) 1555200 ledger run.0 ≡ run
twice-enforce_facility_fees_example =
    twice-enforce_facility_fees (λ n. 1000 + n) 1555200 ledger (λ k. if k == 11 then 5 else 6)
      estate refl refl
