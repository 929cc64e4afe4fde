-- ===== src/Agent/Tests.antt =====
-- The theorems on agents at two operations, one applied and one waiting.
use estatemate_minmoe.Prelude.{true, none, some, [], ◌∷◌, leb, all, ◌≡◌, refl}
use estatemate_minmoe.Prelude.Text.{lit}
use estatemate_minmoe.Hardware.{Key, DeviceStatus, OperationStatus}
use estatemate_minmoe.Agent.{
  Operation, Db, device_table, succeeded, refused, not_found, claim_operations, report_result,
}
use estatemate_minmoe.Agent.Final.{
  claim, report, serve_all, find_operation, applied-serve_all, unlinked-report_result,
}
use estatemate_minmoe.Agent.Exclusive.{claimable, taken-claim_operations}

abbrev operation_of : Key → OperationStatus → Operation
operation_of k status = record {
  id = k;
  device_id = 1;
  visitor_request_id = none;
  operation = lit "upsert_person";
  payload_json = lit "{}";
  status = status;
  error_message = none;
  attempts = 0;
  agent_id = none;
  created_at = 10;
  updated_at = 10;
}

abbrev shop : Db
shop = record {
  devices =
      record {
        id = 1;
        connection_pattern = lit "isapi_bridge";
        status = DeviceStatus.online;
        deleted_at = none;
        last_seen_at = none;
        isapi_agent_id = some 5;
      }
      ∷ [];
  configs = record { device_id = 1; agent_id = some 5; sync_enabled = true } ∷ [];
  visitors = [];
  device_operations =
      operation_of 11 OperationStatus.applied ∷ operation_of 12 OperationStatus.pending ∷ [];
  visitor_operations = [];
}

applied-serve_all_example :
    find_operation device_table 11 (
      serve_all
        ((20, claim 5 none) ∷ (30, report 5 11 (refused none)) ∷ (40, report 5 12 succeeded) ∷ [])
        shop)
    ≡ some (operation_of 11 OperationStatus.applied)
applied-serve_all_example =
    applied-serve_all device_table 11 (operation_of 11 OperationStatus.applied)
      ((20, claim 5 none) ∷ (30, report 5 11 (refused none)) ∷ (40, report 5 12 succeeded) ∷ [])
      shop refl refl

unlinked-report_result_example : report_result 30 6 12 succeeded shop ≡ (not_found, shop)
unlinked-report_result_example = unlinked-report_result 30 6 12 succeeded shop refl refl

taken-claim_operations_example :
    all
      (λ o. leb (claimable 20 o (claim_operations 20 5 none shop).1) 0)
      (claim_operations 20 5 none shop).0
    ≡ true
taken-claim_operations_example = taken-claim_operations 20 5 none shop
