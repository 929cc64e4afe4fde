-- ===== src/DeviceSync/Overview.antt =====
-- `deviceSyncOverview` of src/device-sync.ts: every person that may hold a credential against every
-- terminal, with the sums. `by_name` is the `ORDER BY` of a query of persons.
use estatemate_minmoe.Prelude.{
  ℕ, ◌+◌, Bool, ◌&&◌, Option, none, some, List, ◌++◌, ◌==◌, select, count, map, take, last_of,
  value_or, min, max, for_each,
}
use estatemate_minmoe.Prelude.Text.{Text}
use estatemate_minmoe.Hardware.{Key, holds_key, is_null}
use estatemate_minmoe.Credentials.{Credential, is_active}
use estatemate_minmoe.DeviceSync.{
  PersonKind, account, dependant, same_person_kind, SyncDevice, Tables,
}
use estatemate_minmoe.DeviceSync.State.{SyncState, PersonState}

-- `users` and `household_members` as the two queries read them; `is_listed` is their WHERE clause.
pub record PersonRow : Type 0 where
  pub id : Key
  pub name : Text
  pub employee_id : Option Text
  pub is_listed : Bool

pub record OverviewPerson : Type 0 where
  pub kind : PersonKind
  pub id : Key
  pub name : Text
  pub employee_no : Option Text
  pub cards : ℕ
  pub fingerprints : ℕ

pub record Sums : Type 0 where
  pub synced : ℕ
  pub pending : ℕ
  pub manual : ℕ
  pub missing : ℕ

abbrev pub no_sums : Sums
no_sums = record { synced = 0; pending = 0; manual = 0; missing = 0 }

-- What one cell of the grid adds to the bucket of its terminal; a removed person is counted nowhere.
unfoldable pub bucket_counted : SyncState → Sums → Sums
bucket_counted SyncState.synced bucket = record bucket { synced = bucket.synced + 1 }
bucket_counted SyncState.pending bucket = record bucket { pending = bucket.pending + 1 }
bucket_counted SyncState.manual bucket = record bucket { manual = bucket.manual + 1 }
bucket_counted SyncState.removed bucket = bucket
bucket_counted SyncState.missing bucket = record bucket { missing = bucket.missing + 1 }

-- What the same branch adds to the totals, in a statement of its own.
unfoldable pub totals_counted : SyncState → Sums → Sums
totals_counted SyncState.synced totals = record totals { synced = totals.synced + 1 }
totals_counted SyncState.pending totals = record totals { pending = totals.pending + 1 }
totals_counted SyncState.manual totals = record totals { manual = totals.manual + 1 }
totals_counted SyncState.removed totals = totals
totals_counted SyncState.missing totals = record totals { missing = totals.missing + 1 }

module _ {D : Type 0} where
  abbrev of_account : Key → Credential D → Bool
  of_account id c = c.resident_id == id && is_null c.household_member_id && is_active c.status

  abbrev of_dependant : Key → Credential D → Bool
  of_dependant id c = holds_key c.household_member_id id && is_active c.status

abbrev account_entry : Tables → PersonRow → OverviewPerson
account_entry t r = record {
  kind = account;
  id = r.id;
  name = r.name;
  employee_no = r.employee_id;
  cards = count (of_account r.id) t.cards;
  fingerprints = count (of_account r.id) t.fingers;
}

abbrev dependant_entry : Tables → PersonRow → OverviewPerson
dependant_entry t r = record {
  kind = dependant;
  id = r.id;
  name = r.name;
  employee_no = r.employee_id;
  cards = count (of_dependant r.id) t.cards;
  fingerprints = count (of_dependant r.id) t.fingers;
}

-- `Math.min(1000, Math.max(1, options.limit ?? 500))`
abbrev limit_of : Option ℕ → ℕ
limit_of limit = min 1000 (max 1 (value_or limit 500))

unfoldable pub overview_people :
    (List PersonRow → List PersonRow)
    → Tables
    → List PersonRow
    → List PersonRow
    → Option ℕ
    → List OverviewPerson
overview_people by_name t users members limit =
    map (account_entry t) (take (limit_of limit) (by_name (select PersonRow.is_listed users)))
    ++ map (dependant_entry t)
        (take (limit_of limit) (by_name (select PersonRow.is_listed members)))

abbrev is_cell : OverviewPerson → SyncDevice → PersonState → Bool
is_cell p d s = same_person_kind s.person_kind p.kind && s.person_id == p.id && s.device_id == d.id

-- `found?.state ?? 'missing'`; of rows under one key the last is found.
abbrev pub cell_of : List PersonState → OverviewPerson → SyncDevice → SyncState
cell_of states p d = elim (last_of (is_cell p d) states) [
  | none ↦ SyncState.missing
  | some s ↦ s.state
]

-- The sums of one person over the terminals, and of all persons.
abbrev pub count_person : List PersonState → OverviewPerson → List SyncDevice → Sums → Sums
count_person states p devices = for_each (λ s d. totals_counted (cell_of states p d) s) devices

unfoldable pub overview_totals : List PersonState → List OverviewPerson → List SyncDevice → Sums
overview_totals states people devices =
    for_each (λ s p. count_person states p devices s) people no_sums

-- The bucket of one terminal.
unfoldable pub device_totals : List PersonState → List OverviewPerson → SyncDevice → Sums
device_totals states people d =
    for_each (λ s p. bucket_counted (cell_of states p d) s) people no_sums
