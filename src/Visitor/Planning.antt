-- ===== src/Visitor/Planning.antt =====
-- The loops over the devices in `queueVisitorDeviceOperations` and `queueVisitorDeviceRemovals` of
-- src/index.ts, and the batch of statements that they prepare. `now` is `datetime('now')`, and
-- `uuid n` is the n-th id that `crypto.randomUUID` gives.
pub mod Coverage
pub mod Tracking
use estatemate_minmoe.Prelude.{
  ℕ, ◌+◌, Bool, true, false, not, ◌&&◌, Option, none, some, List, [], ◌∷◌, ◌++◌, ◌==◌,
  if◌then◌else◌, update, last_of,
}
use estatemate_minmoe.Prelude.Text.{Text, eqt}
use estatemate_minmoe.Hardware.{
  Key, Device, DeviceConfig, OperationStatus, is_pending, is_failed, is_pending_pattern,
  device_has_linked_agent,
}
use estatemate_minmoe.Visitor.Tables.{VisitorOperation, Operation, same_operation}

-- A prepared statement of `db.batch`.
pub data Statement : Type 0 where
  insert : Operation → Statement
  retry : Key → Text → OperationStatus → Statement
  refresh : Key → Text → Statement

abbrev pub retried : Text → OperationStatus → ℕ → Operation → Operation
retried payload status now r = record r {
  payload_json = payload;
  status = status;
  error_message = none;
  updated_at = now;
}

abbrev pub refreshed : Text → ℕ → Operation → Operation
refreshed payload now r = record r {
  payload_json = payload;
  error_message = none;
  updated_at = now;
}

unfoldable pub execute : ℕ → Statement → List Operation → List Operation
execute now (insert row) operations = operations ++ row ∷ []
execute now (retry id payload status) operations =
    update (λ r. r.id == id) (retried payload status now) operations
execute now (refresh id payload) operations =
    update (λ r. r.id == id) (refreshed payload now) operations

unfoldable pub batch : ℕ → List Statement → List Operation → List Operation
batch now [] operations = operations
batch now (s ∷ ss) operations = batch now ss (execute now s operations)

-- What the loop over the devices does about one device, from the operation that it has now.
pub data Decision : Type 0 where
  leave create retry_failed refresh_stale : Decision

unfoldable pub upsert_decision : Text → Option Operation → Decision
upsert_decision payload none = create
upsert_decision payload (some r) =
    if is_failed r.status
    then retry_failed
    else if is_pending r.status && not (eqt r.payload_json payload)
    then refresh_stale
    else leave

-- A revocation in flight is left alone; only a failed one is retried.
unfoldable pub revoke_decision : Option Operation → Decision
revoke_decision none = create
revoke_decision (some r) = if not (is_failed r.status) then leave else retry_failed

-- `visitorOperationDelivery`
unfoldable pub visitor_operation_delivery : List DeviceConfig → Device → OperationStatus
visitor_operation_delivery configs device =
    if is_pending_pattern device.connection_pattern && device_has_linked_agent configs device.id
    then OperationStatus.pending
    else OperationStatus.manual_action_required

-- `byDevice.get(device.id)`, of the rows of one pass and one kind.
abbrev pub is_current : Key → VisitorOperation → Key → Operation → Bool
is_current pass kind device r =
    r.visitor_request_id == pass && same_operation r.operation kind && r.device_id == device

module _ (uuid : ℕ → Key) (now : ℕ) (pass : Key) (kind : VisitorOperation) (payload : Text)
    (decide : Option Operation → Decision) (configs : List DeviceConfig) where
  abbrev pub new_row : Device → ℕ → Operation
  new_row device drawn = record {
    id = uuid drawn;
    visitor_request_id = pass;
    device_id = device.id;
    operation = kind;
    payload_json = payload;
    status = visitor_operation_delivery configs device;
    error_message = none;
    attempts = 0;
    agent_id = none;
    updated_at = now;
  }

  -- The body of the loop: the statement for one device, and the ids drawn.
  unfoldable pub prepare : Device → Decision → Option Operation → ℕ → List Statement × ℕ
  prepare device leave current drawn = ([], drawn)
  prepare device create current drawn = (insert (new_row device drawn) ∷ [], drawn + 1)
  prepare device retry_failed none drawn = ([], drawn)
  prepare device retry_failed (some r) drawn =
      (retry r.id payload (visitor_operation_delivery configs device) ∷ [], drawn)
  prepare device refresh_stale none drawn = ([], drawn)
  prepare device refresh_stale (some r) drawn = (refresh r.id payload ∷ [], drawn)

  -- The loop over the enabled devices, with the rows read before it.
  unfoldable pub plan : List Operation → List Device → ℕ → List Statement × ℕ
  unfolding prepare
  plan existing [] drawn = ([], drawn)
  plan existing (device ∷ devices) drawn =
      let current = last_of (is_current pass kind device.id) existing in
      let (here, drawn') = prepare device (decide current) current drawn in
      let (later, drawn'') = plan existing devices drawn' in (here ++ later, drawn'')
