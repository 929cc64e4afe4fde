-- ===== src/DeviceSync.antt =====
-- Keeping the persons on the terminals in step with the portal, src/device-sync.ts: the terminals with
-- what their agents can do. Rows that the module only reads are `Tables`; `order` is the
-- `ORDER BY d.gate_name,d.name`, and `read_array` the texts of an array as `JSON.parse` and `String` give
-- them, `none` where the text is no array.
pub mod State
pub mod Rows
pub mod Queueing
pub mod Removal
pub mod Overview
pub mod Open
pub mod Done
pub mod Again
pub mod Ability
pub mod Capable
pub mod Counted
pub mod Tests
use estatemate_minmoe.Prelude.{
  ℕ, ◌+◌, Bool, true, false, not, ◌&&◌, ◌||◌, Option, none, some, List, [], ◌∷◌, ◌++◌, ◌==◌, ltb,
  leb, if◌then◌else◌, any, select, first, count, map,
}
use estatemate_minmoe.Prelude.Text.{Text, lit, includes, trim, to_lower}
use estatemate_minmoe.Hardware.{Key, DeviceConfig, is_null, holds_key}
use estatemate_minmoe.Credentials.{Card, Finger}

pub data PersonKind : Type 0 where
  account dependant : PersonKind

abbrev pub is_account : PersonKind → Bool
is_account account = true
is_account dependant = false

abbrev pub same_person_kind : PersonKind → PersonKind → Bool
same_person_kind account account = true
same_person_kind dependant dependant = true
same_person_kind _ _ = false

-- `PersonRef`, without the status, which the module passes on unread
pub record PersonRef : Type 0 where
  pub kind : PersonKind
  pub id : Key
  pub name : Text
  pub employee_no : Option Text

pub data Capability : Type 0 where
  card person fingerprint door visitor : Capability

abbrev pub capability_name : Capability → Text
capability_name card = lit "card"
capability_name person = lit "person"
capability_name fingerprint = lit "fingerprint"
capability_name door = lit "door"
capability_name visitor = lit "visitor"

pub record SyncDevice : Type 0 where
  pub id : Key
  pub name : Text
  pub gate_name : Text
  pub connection_pattern : Text
  pub agent_capabilities : List Text
  pub has_agent : Bool
  pub door_numbers : List ℕ

-- What an agent that advertises nothing can do.
abbrev is_basic : Capability → Bool
is_basic card = true
is_basic visitor = true
is_basic door = true
is_basic _ = false

-- `agentCan`
unfoldable pub agent_can : SyncDevice → Capability → Bool
agent_can device capability = device.has_agent && elim device.agent_capabilities [
  | [] ↦ is_basic capability
  | c ∷ cs ↦ includes (c ∷ cs) (capability_name capability)
]

-- `isPendingPattern` of this module
abbrev sync_pending_patterns : List Text
sync_pending_patterns =
    lit "windows_agent" ∷ lit "android_bridge" ∷ lit "isapi_bridge" ∷ lit "cloud_agent" ∷ []

unfoldable pub is_sync_pending_pattern : Option Text → Bool
is_sync_pending_pattern none = false
is_sync_pending_pattern (some []) = false
is_sync_pending_pattern (some (c ∷ s)) = includes sync_pending_patterns (c ∷ s)

abbrev is_filled : Text → Bool
is_filled [] = false
is_filled (c ∷ s) = true

abbrev array_of : Option (List Text) → List Text
array_of none = []
array_of (some xs) = select is_filled (map (λ x. trim (to_lower x)) xs)

-- `parseCapabilities`
unfoldable pub parse_capabilities : (Text → Option (List Text)) → Option Text → List Text
parse_capabilities read_array none = []
parse_capabilities read_array (some raw) =
    if is_filled (trim raw) then array_of (read_array raw) else []

-- The columns of `hikvision_devices` that the module reads; `is_enabled` is
-- `status!='disabled' AND deleted_at IS NULL`.
pub record DeviceRow : Type 0 where
  pub id : Key
  pub name : Text
  pub gate_name : Text
  pub connection_pattern : Text
  pub is_enabled : Bool

-- `isapi_agents`; `is_deleted` is `deleted_at IS NOT NULL`.
pub record AgentRow : Type 0 where
  pub id : Key
  pub capabilities : Option Text
  pub is_deleted : Bool

-- `access_points`; a channel that is no whole number is `none`.
pub record AccessPoint : Type 0 where
  pub device_id : Key
  pub hikvision_channel : Option ℕ
  pub enabled : Bool

-- `fingerprint_captures`; `is_captured` is `status='captured'`.
pub record Capture : Type 0 where
  pub id : Key
  pub resident_id : Key
  pub household_member_id : Option Key
  pub finger_no : ℕ
  pub is_captured : Bool
  pub template_data : Option Text
  pub expires_at : ℕ
  pub updated_at : ℕ

pub record Tables : Type 0 where
  pub devices : List DeviceRow
  pub agents : List AgentRow
  pub configs : List DeviceConfig
  pub points : List AccessPoint
  pub cards : List Card
  pub fingers : List Finger
  pub captures : List Capture

abbrev live_agent : List AgentRow → DeviceConfig → Option AgentRow
live_agent agents cfg = first (λ a. holds_key cfg.agent_id a.id && not a.is_deleted) agents

abbrev capabilities_in : Option AgentRow → Option Text
capabilities_in none = none
capabilities_in (some a) = a.capabilities

-- The subquery `capabilities`: the first enabled link to an agent that is not deleted.
abbrev capabilities_of : Tables → Key → Option Text
capabilities_of t device =
    elim (first
      (λ c. c.device_id == device && c.sync_enabled && not (is_null (live_agent t.agents c)))
      t.configs) [ none ↦ none | some c ↦ capabilities_in (live_agent t.agents c) ]

-- The subquery `agents`
abbrev agents_of : Tables → Key → ℕ
agents_of t device =
    count (λ c. c.device_id == device && c.sync_enabled && not (is_null c.agent_id)) t.configs

-- `list.includes(channel)`
abbrev pub holds_number : List ℕ → ℕ → Bool
holds_number [] n = false
holds_number (x ∷ xs) n = x == n || holds_number xs n

-- One access point of the loop over `points`, for one terminal.
abbrev pub add_door : Key → List ℕ → AccessPoint → List ℕ
add_door device doors p = elim p.hikvision_channel [
  | none ↦ doors
  | some n ↦
      if p.enabled && p.device_id == device && leb 1 n && leb n 8 && not (holds_number doors n)
      then doors ++ n ∷ []
      else doors
]

abbrev doors_from : Key → List AccessPoint → List ℕ → List ℕ
doors_from device [] doors = doors
doors_from device (p ∷ ps) doors = doors_from device ps (add_door device doors p)

-- `doorsByDevice.get(row.id) ?? [1]`; a terminal has an entry there once it has a door.
abbrev or_first : List ℕ → List ℕ
or_first [] = 1 ∷ []
or_first (d ∷ ds) = d ∷ ds

unfoldable pub door_numbers_of : List AccessPoint → Key → List ℕ
door_numbers_of points device = or_first (doors_from device points [])

-- ` AND d.id IN (…)`; an empty list counts as none.
abbrev pub is_selected : Option (List Key) → DeviceRow → Bool
is_selected none d = true
is_selected (some []) d = true
is_selected (some (k ∷ ks)) d = holds_number (k ∷ ks) d.id

module _ (read_array : Text → Option (List Text)) (order : List DeviceRow → List DeviceRow) where
  abbrev sync_device : Tables → DeviceRow → SyncDevice
  sync_device t d = record {
    id = d.id;
    name = d.name;
    gate_name = d.gate_name;
    connection_pattern = d.connection_pattern;
    agent_capabilities = parse_capabilities read_array (capabilities_of t d.id);
    has_agent = ltb 0 (agents_of t d.id);
    door_numbers = door_numbers_of t.points d.id;
  }

  -- `syncDevices`
  unfoldable pub sync_devices : Tables → Option (List Key) → List SyncDevice
  sync_devices t ids =
      map (sync_device t) (order (select (λ d. d.is_enabled && is_selected ids d) t.devices))
