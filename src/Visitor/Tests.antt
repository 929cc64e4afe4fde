-- ===== src/Visitor/Tests.antt =====
-- The theorems on the device accounts of src/index.ts at a pass that one of two terminals has.
use estatemate_minmoe.Prelude.{ℕ, ◌+◌, true, none, some, [], ◌∷◌, map, select, All, ◌≡◌, refl}
use estatemate_minmoe.Prelude.Text.{lit}
use estatemate_minmoe.Hardware.{Key, Device, DeviceStatus, OperationStatus}
use estatemate_minmoe.Visitor.Tables.{
  VisitorOperation, upsert_visitor, revoke_visitor, Operation, PassStatus, AccountState,
  removal_queued, removed, Pass, Db,
}
use estatemate_minmoe.Visitor.Accounts.{
  targeted, queue_visitor_device_operations, refresh_visitor_device_account_state,
}
use estatemate_minmoe.Visitor.Accounts.Reconciled.{Reaches, queue_again, queue-Reaches}
use estatemate_minmoe.Visitor.Accounts.Settled.{state_of, state_of-refresh}
use estatemate_minmoe.Visitor.Sweep.{release_expired_visitor_device_accounts}
use estatemate_minmoe.Visitor.Sweep.Released.{kept, kept-release}

abbrev terminal : Key → Device
terminal k = record {
  id = k;
  connection_pattern = lit "isapi_bridge";
  status = DeviceStatus.online;
  deleted_at = none;
  last_seen_at = some 90;
  isapi_agent_id = some 5;
}

abbrev guest_pass : AccountState → Pass
guest_pass state = record {
  id = 7;
  status = PassStatus.active;
  credential_number = some (lit "VIS0000000042");
  visitor_name = lit "Ada";
  valid_until = 80;
  account_state = state;
  provisioned_at = some 10;
  removed_at = none;
  removed_reason = none;
}

abbrev operation_at : VisitorOperation → OperationStatus → Key → Operation
operation_at kind status k = record {
  id = 100 + k;
  visitor_request_id = 7;
  device_id = k;
  operation = kind;
  payload_json = lit "{}";
  status = status;
  error_message = none;
  attempts = 1;
  agent_id = some 5;
  updated_at = 20;
}

-- Terminal 1 failed to take the account; terminal 2 was not told of it.
abbrev failed_db : Db
failed_db = record {
  devices = terminal 1 ∷ terminal 2 ∷ [];
  configs = record { device_id = 1; agent_id = some 5; sync_enabled = true } ∷ [];
  passes = guest_pass AccountState.provisioned ∷ [];
  operations = operation_at upsert_visitor OperationStatus.failed 1 ∷ [];
  drawn = 0;
}

-- Both terminals have applied the revocation.
abbrev revoked_db : Db
revoked_db = record failed_db {
  passes = guest_pass removal_queued ∷ [];
  operations =
      operation_at revoke_visitor OperationStatus.applied 1
      ∷ operation_at revoke_visitor OperationStatus.applied 2
      ∷ [];
}

abbrev draw : ℕ → Key
draw n = 1000 + n

queue_again_example :
    queue_visitor_device_operations draw 60
      (queue_visitor_device_operations draw 50 failed_db 7 none (lit "{\"n\":1}")).0
      7
      none
      (lit "{\"n\":1}")
    ≡ ((queue_visitor_device_operations draw 50 failed_db 7 none (lit "{\"n\":1}")).0, 0)
queue_again_example = queue_again draw 50 60 failed_db 7 none (lit "{\"n\":1}")

queue-Reaches_example :
    All
      (Reaches 7 upsert_visitor
        (lit "{\"n\":1}")
        (queue_visitor_device_operations draw 50 failed_db 7 none (lit "{\"n\":1}")).0.operations)
      (select (targeted none) failed_db.devices)
queue-Reaches_example = queue-Reaches draw 50 failed_db 7 none (lit "{\"n\":1}")

state_of-refresh_example :
    state_of 7 (refresh_visitor_device_account_state 60 revoked_db 7) ≡ some removed
state_of-refresh_example = state_of-refresh 60 revoked_db 7 refl

kept-release_example :
    map kept (release_expired_visitor_device_accounts draw 90 failed_db).0.passes
    ≡ (7, PassStatus.expired, 80) ∷ []
kept-release_example = kept-release draw 90 failed_db
