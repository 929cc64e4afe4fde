-- ===== src/Tenure/Tests.antt =====
-- The theorems on properties of src/index.ts at a small estate, and runs of the code.
use estatemate_minmoe.Prelude.{
  ◌/◌, true, false, ◌&&◌, none, some, [], ◌∷◌, ◌==◌, any, count, first, ◌≡◌, refl, map, arith,
  oldest,
}
use estatemate_minmoe.Prelude.Text.{lit}
use estatemate_minmoe.Hardware.{Key, holds_key}
use estatemate_minmoe.Credentials.{CredentialStatus, Card}
use estatemate_minmoe.Tenure.{
  Ownership, OwnershipStatus, Tenancy, TenancyStatus, Member, MemberStatus, Holdings,
  is_primary_resident, property_relationship, primary_resident_property_id,
}
use estatemate_minmoe.Tenure.Primary.{owner_of, primary_of, is_primary_resident-primary_of}
use estatemate_minmoe.Tenure.Transfer.{
  Transfer, TransferStatus, AccountStatus, Outcome, done, is_open, complete_property_transfer,
}
use estatemate_minmoe.Tenure.Transfer
use estatemate_minmoe.Tenure.Transfer.Owners.{
  agreed, answer_for, owner_of-complete_property_transfer,
}
use estatemate_minmoe.Tenure.Household.{
  is_household, is_open_member, is_of_household, deactivate_primary_household,
}
use estatemate_minmoe.Tenure.Household
use estatemate_minmoe.Tenure.Household.Suspended.{any-deactivate_primary_household}
use estatemate_minmoe.Tenure.Lifecycle.{has_ended, has_lapsed, process_property_lifecycle}
use estatemate_minmoe.Tenure.Lifecycle
use estatemate_minmoe.Tenure.Lifecycle.Ended.{ended-process_property_lifecycle}

-- Property 1 is owned by 5 and let to 6 from day 10 to day 20; property 2 is owned by 5.
abbrev owned : Key → Key → Ownership
owned id property = record {
  id = id;
  property_id = property;
  resident_id = 5;
  status = OwnershipStatus.active;
  approved_by = none;
  approved_at = id;
  revoked_by = none;
  revoked_at = none;
  revocation_reason = none;
}

abbrev tenancy : Tenancy
tenancy = record {
  id = 31;
  property_id = 1;
  tenant_id = 6;
  status = TenancyStatus.active;
  start_date = 10;
  end_date = some 20;
  billed_to_tenant = true;
  can_manage_visitors = true;
  can_manage_maintenance = false;
  ended_at = none;
}

abbrev child : Member
child = record {
  id = 41;
  property_id = 1;
  primary_resident_id = 6;
  linked_user_id = none;
  status = MemberStatus.active;
  can_create_visitors = false;
  can_view_bills = false;
  created_at = 0;
  deactivated_by = none;
  deactivated_at = none;
}

abbrev holdings : Holdings
holdings = record {
  ownerships = owned 21 1 ∷ owned 22 2 ∷ [];
  tenancies = tenancy ∷ [];
  members = child ∷ [];
}

owner_relation :
    (elim (property_relationship 15 5 1 holdings) [ none ↦ true | some r ↦ r.can_create_visitors ])
    ≡ false
unfolding property_relationship
owner_relation = refl

main_property : primary_resident_property_id 15 6 holdings ≡ some 1
unfolding primary_resident_property_id oldest
main_property = refl

is_primary_resident-primary_of_example :
    is_primary_resident 15 6 1 holdings ≡ holds_key (primary_of 15 1 holdings) 6
is_primary_resident-primary_of_example =
    is_primary_resident-primary_of 15 6 1 holdings (ground arith) (ground arith)

abbrev handed : Transfer.Db
handed = record {
  transfers =
      record {
        id = 51;
        property_id = 2;
        from_owner_id = 5;
        to_owner_id = 7;
        effective_date = 100;
        status = TransferStatus.scheduled;
        completed_at = none;
        failure_reason = none;
      }
      ∷ [];
  ownerships = holdings.ownerships;
  accounts =
      record {
        id = 7;
        property_id = none;
        status = AccountStatus.active;
        account_expires_at = some 150;
      }
      ∷ [];
}

handed_runs :
    map Ownership.resident_id (complete_property_transfer 90 none 120 51 handed).0.ownerships
    ≡ 5 ∷ 5 ∷ 7 ∷ []
unfolding complete_property_transfer
handed_runs = refl

owner_of-complete_property_transfer_example :
    ((q : Key)
      → owner_of q (complete_property_transfer 90 none 120 51 handed).0.ownerships
        ≡ agreed
            (first (λ t. t.id == 51 && is_open t) handed.transfers)
            (λ q. owner_of q handed.ownerships)
            q)
    × ((complete_property_transfer 90 none 120 51 handed).1
        ≡ answer_for
            (first (λ t. t.id == 51 && is_open t) handed.transfers)
            (λ q. owner_of q handed.ownerships))
owner_of-complete_property_transfer_example =
    owner_of-complete_property_transfer 90 none 120 51 handed (λ k. ground arith)
      (λ q. ground arith)

abbrev card : Card
card = record {
  id = 61;
  resident_id = 6;
  household_member_id = some 41;
  detail = lit "A1";
  status = CredentialStatus.active;
  auto_expired = false;
  deactivated_at = none;
  deactivated_reason = none;
}

abbrev home : Household.Db
home = record {
  members = child ∷ [];
  cards = card ∷ [];
  fingers = [];
  card_changes = [];
  finger_changes = [];
  queue = record { devices = []; operations = []; drawn = 0 };
}

any-deactivate_primary_household_example :
    (count
        (λ m. is_household 1 6 m && is_open_member m)
        (deactivate_primary_household (λ n. n) 500 none 1 6 home).members
      ≡ 0)
    × (any
          (is_of_household home.members 1 6)
          (deactivate_primary_household (λ n. n) 500 none 1 6 home).cards
        ≡ false)
    × (any
          (is_of_household home.members 1 6)
          (deactivate_primary_household (λ n. n) 500 none 1 6 home).fingers
        ≡ false)
any-deactivate_primary_household_example =
    any-deactivate_primary_household (λ n. n) 500 none 1 6 home

abbrev estate : Lifecycle.Db
estate = record { tenancies = tenancy ∷ []; home = home; holding = handed }

-- Day 21 begins.
ended-process_property_lifecycle_example :
    (any
        (has_ended (1814400 / 86400))
        (process_property_lifecycle (λ n. n) 1814400 estate).tenancies
      ≡ false)
    × (count
          (has_lapsed 1814400)
          (process_property_lifecycle (λ n. n) 1814400 estate).holding.accounts
        ≡ 0)
ended-process_property_lifecycle_example = ended-process_property_lifecycle (λ n. n) 1814400 estate
