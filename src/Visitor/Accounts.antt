-- ===== src/Visitor/Accounts.antt =====
-- `queueVisitorDeviceOperations`, `queueVisitorDeviceRemovals` and
-- `refreshVisitorDeviceAccountState` of src/index.ts.
pub mod Reconciled
pub mod Settled
use estatemate_minmoe.Prelude.{
  ℕ, Bool, true, false, not, ◌&&◌, Option, none, some, List, [], ◌∷◌, ◌==◌, leb, if◌then◌else◌,
  length, select, update, count, first, value_or,
}
use estatemate_minmoe.Prelude.Text.{Text, lit, eqt}
use estatemate_minmoe.Prelude.Json.{bool, str, stringify}
use estatemate_minmoe.EmployeeId.{device_employee_no}
use estatemate_minmoe.Hardware.{Key, Device, is_applied, is_enabled}
use estatemate_minmoe.Visitor.Tables.{
  upsert_visitor, revoke_visitor, same_operation, Operation, Pass, Db, AccountState, provisioned,
  removal_queued, removed, is_provisioned, is_removal_queued, is_removed,
}
use estatemate_minmoe.Visitor.Planning.{
  batch, execute, plan, upsert_decision, revoke_decision, visitor_operation_delivery,
}

-- `UPDATE visitor_requests SET … WHERE id=? AND device_account_state IN ('none','removal_queued','removed')`
unfoldable pub mark_provisioned : ℕ → Key → List Pass → List Pass
mark_provisioned now id =
    update (λ p. p.id == id && not (is_provisioned p.account_state))
      (λ p. record p {
        account_state = provisioned;
        provisioned_at = some (value_or p.provisioned_at now);
        removed_at = none;
      })

abbrev pub targeted : Option Key → Device → Bool
targeted none d = is_enabled d
targeted (some id) d = d.id == id && is_enabled d

-- `queueVisitorDeviceOperations`; the result is the number of operations queued.
unfoldable pub queue_visitor_device_operations :
    (ℕ → Key) → ℕ → Db → Key → Option Key → Text → Db × ℕ
queue_visitor_device_operations uuid now db pass target payload =
    let devices = select (targeted target) db.devices in
    if leb (length devices) 0
    then (db, 0)
    else (let (statements, drawn) =
          plan uuid now pass upsert_visitor payload (upsert_decision payload) db.configs
            db.operations devices db.drawn in
        (
          record db {
            operations = batch now statements db.operations;
            passes = mark_provisioned now pass db.passes;
            drawn = drawn;
          },
          length statements,
        ))

abbrev pub revoke_payload : Text → Text → Text → Text
revoke_payload credential name reason = stringify (
    (lit "credentialNumber", str credential)
    ∷ (lit "employeeNo", str (device_employee_no (lit "visitor") credential))
    ∷ (lit "visitorName", str name)
    ∷ (lit "enabled", bool false)
    ∷ (lit "reason", str reason)
    ∷ [])

-- With no terminals there is no slot to release: the lifecycle ends.
unfoldable pub mark_removed : ℕ → Key → Text → List Pass → List Pass
mark_removed now id reason =
    update (λ p. p.id == id && not (is_removed p.account_state))
      (λ p. record p {
        account_state = removed;
        removed_at = some now;
        removed_reason = some reason;
      })

unfoldable pub mark_removal_queued : Key → Text → List Pass → List Pass
mark_removal_queued id reason =
    update (λ p. p.id == id && is_provisioned p.account_state)
      (λ p. record p { account_state = removal_queued; removed_reason = some reason })

-- `queueVisitorDeviceRemovals` for a pass with a credential number.
unfoldable pub remove_credential : (ℕ → Key) → ℕ → Db → Pass → Text → Text → Db × ℕ
remove_credential uuid now db pass reason credential =
    let devices = select is_enabled db.devices in
    let payload = revoke_payload credential pass.visitor_name reason in
    if leb (length devices) 0
    then (record db { passes = mark_removed now pass.id reason db.passes }, 0)
    else (let (statements, drawn) =
          plan uuid now pass.id revoke_visitor payload revoke_decision db.configs db.operations
            devices db.drawn in
        (
          record db {
            operations = batch now statements db.operations;
            passes = mark_removal_queued pass.id reason db.passes;
            drawn = drawn;
          },
          length statements,
        ))

-- A falsy credential number is NULL or empty.
unfoldable pub remove_with : (ℕ → Key) → ℕ → Db → Pass → Text → Option Text → Db × ℕ
remove_with uuid now db pass reason none = (db, 0)
remove_with uuid now db pass reason (some credential) =
    if eqt credential [] then (db, 0) else remove_credential uuid now db pass reason credential

unfoldable pub queue_visitor_device_removals : (ℕ → Key) → ℕ → Db → Pass → Text → Db × ℕ
queue_visitor_device_removals uuid now db pass reason =
    remove_with uuid now db pass reason pass.credential_number

abbrev pub is_revocation_of : Key → Operation → Bool
is_revocation_of pass r = r.visitor_request_id == pass && same_operation r.operation revoke_visitor

-- `refreshVisitorDeviceAccountState`
unfoldable pub refresh_visitor_device_account_state : ℕ → Db → Key → Db
refresh_visitor_device_account_state now db pass =
    let total = count (is_revocation_of pass) db.operations in
    let done = count (λ r. is_revocation_of pass r && is_applied r.status) db.operations in
    elim (first (λ p. p.id == pass) db.passes) [
      | none ↦ db
      | some row ↦
          if not (is_removal_queued row.account_state)
          then db
          else if leb 1 total && leb total done
          then record db {
            passes =
                update (λ p. p.id == pass)
                  (λ p. record p { account_state = removed; removed_at = some now }) db.passes;
          }
          else db
    ]
