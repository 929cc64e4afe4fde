-- ===== src/Visitor/Tables.antt =====
-- The tables `visitor_requests` and `visitor_device_operations`, as far as src/index.ts uses them for
-- device accounts.
use estatemate_minmoe.Prelude.{ℕ, Bool, true, false, Option, List}
use estatemate_minmoe.Prelude.Text.{Text}
use estatemate_minmoe.Hardware.{Key, Device, DeviceConfig, OperationStatus}

pub data VisitorOperation : Type 0 where
  upsert_visitor revoke_visitor : VisitorOperation

abbrev pub same_operation : VisitorOperation → VisitorOperation → Bool
same_operation upsert_visitor upsert_visitor = true
same_operation revoke_visitor revoke_visitor = true
same_operation _ _ = false

-- A row of `visitor_device_operations`.
pub record Operation : Type 0 where
  pub id : Key
  pub visitor_request_id : Key
  pub device_id : Key
  pub operation : VisitorOperation
  pub payload_json : Text
  pub status : OperationStatus
  pub error_message : Option Text
  pub attempts : ℕ
  pub agent_id : Option Key
  pub updated_at : ℕ

pub data PassStatus : Type 0 where
  pending active checked_in checked_out revoked expired : PassStatus

-- `device_account_state`; `absent` is 'none'.
pub data AccountState : Type 0 where
  absent provisioned removal_queued removed : AccountState

-- The columns of `visitor_requests` that these functions use.
pub record Pass : Type 0 where
  pub id : Key
  pub status : PassStatus
  pub credential_number : Option Text
  pub visitor_name : Text
  pub valid_until : ℕ
  pub account_state : AccountState
  pub provisioned_at : Option ℕ
  pub removed_at : Option ℕ
  pub removed_reason : Option Text

pub record Db : Type 0 where
  pub devices : List Device
  pub configs : List DeviceConfig
  pub passes : List Pass
  pub operations : List Operation
  pub drawn : ℕ

abbrev pub is_active : PassStatus → Bool
is_active PassStatus.active = true
is_active _ = false

abbrev pub is_checked_in : PassStatus → Bool
is_checked_in PassStatus.checked_in = true
is_checked_in _ = false

abbrev pub is_revoked : PassStatus → Bool
is_revoked PassStatus.revoked = true
is_revoked _ = false

abbrev pub is_provisioned : AccountState → Bool
is_provisioned provisioned = true
is_provisioned _ = false

abbrev pub is_removal_queued : AccountState → Bool
is_removal_queued removal_queued = true
is_removal_queued _ = false

abbrev pub is_removed : AccountState → Bool
is_removed removed = true
is_removed _ = false
