-- ===== src/Hardware.antt =====
-- The terminals and agents that src/index.ts keeps in `hikvision_devices` and
-- `isapi_device_configs`, and the statuses of hardware operations. Ids are opaque keys, and
-- timestamps are seconds.
use estatemate_minmoe.Prelude.{
  ℕ, Bool, true, false, not, ◌&&◌, Option, none, some, List, [], ◌∷◌, ◌==◌, any,
}
use estatemate_minmoe.Prelude.Text.{Text, lit, includes}

abbrev pub Key : Type 0
Key = ℕ

pub data DeviceStatus : Type 0 where
  pending online offline disabled : DeviceStatus

pub record Device : Type 0 where
  pub id : Key
  pub connection_pattern : Text
  pub status : DeviceStatus
  pub deleted_at : Option ℕ
  pub last_seen_at : Option ℕ
  pub isapi_agent_id : Option Key

pub record DeviceConfig : Type 0 where
  pub device_id : Key
  pub agent_id : Option Key
  pub sync_enabled : Bool

pub data OperationStatus : Type 0 where
  pending sent applied failed manual_action_required : OperationStatus

abbrev pub is_disabled : DeviceStatus → Bool
is_disabled DeviceStatus.disabled = true
is_disabled _ = false

abbrev pub is_online : DeviceStatus → Bool
is_online DeviceStatus.online = true
is_online _ = false

abbrev pub is_pending : OperationStatus → Bool
is_pending OperationStatus.pending = true
is_pending _ = false

abbrev pub is_sent : OperationStatus → Bool
is_sent OperationStatus.sent = true
is_sent _ = false

abbrev pub is_applied : OperationStatus → Bool
is_applied OperationStatus.applied = true
is_applied _ = false

abbrev pub is_failed : OperationStatus → Bool
is_failed OperationStatus.failed = true
is_failed _ = false

abbrev pub is_null {ℓ} : {A : Type ℓ} → Option A → Bool
is_null none = true
is_null (some a) = false

-- `column = ?` in SQL, which no NULL satisfies
abbrev pub holds_key : Option Key → Key → Bool
holds_key none k = false
holds_key (some j) k = j == k

-- `status!='disabled' AND deleted_at IS NULL`
abbrev pub is_enabled : Device → Bool
is_enabled d = not (is_disabled d.status) && is_null d.deleted_at

abbrev pub pending_operation_patterns : List Text
pending_operation_patterns =
    lit "isapi_bridge" ∷ lit "windows_agent" ∷ lit "isapi_windows_agent" ∷ []

-- `isPendingPattern`; an empty pattern is falsy.
unfoldable pub is_pending_pattern : Text → Bool
is_pending_pattern [] = false
is_pending_pattern (c ∷ s) = includes pending_operation_patterns (c ∷ s)

-- `deviceHasLinkedAgent`
unfoldable pub device_has_linked_agent : List DeviceConfig → Key → Bool
device_has_linked_agent configs device_id =
    any (λ c. c.device_id == device_id && not (is_null c.agent_id) && c.sync_enabled) configs
