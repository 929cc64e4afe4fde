-- ===== src/Gate.antt =====
-- The decision of a gate officer on a scanned visitor pass: the route
-- `POST /api/visitors/:id/decision` of src/index.ts, with the tables `visitor_requests` and
-- `visitor_code_scans`. Texts of notes are left out; proof images are counted.
pub mod Answered
pub mod Allowance
pub mod Release
pub mod Tests
use estatemate_minmoe.Prelude.{
  ℕ, ◌+◌, ◌-◌, Bool, true, false, not, ◌&&◌, ◌||◌, Option, none, some, List, [], ◌∷◌, ◌==◌, leb,
  if◌then◌else◌, update, count, first, value_or, is_some,
}
use estatemate_minmoe.Hardware.{Key, is_null}
use estatemate_minmoe.Visitor.Tables.{PassStatus, is_checked_in, is_active}
use estatemate_minmoe.Prelude.Json.{decimal}
use estatemate_minmoe.VisitorAccount.{read_visit_times}
use estatemate_minmoe.VisitorPass.{PassWindow, Rejection, evaluate_visitor_pass, is_valid}

-- The `action` of a request: any value other than `in` and `out` is `action_other`, which the route takes
-- without a check.
pub data Action : Type 0 where
  action_in action_out action_other : Action

pub data ScanDecision : Type 0 where
  previewed accepted rejected invalid : ScanDecision

-- A row of `visitor_code_scans`.
pub record Scan : Type 0 where
  pub id : Key
  pub visitor_request_id : Option Key
  pub scanned_by : Key
  pub decision : ScanDecision
  pub action : Option Action

-- The columns of `visitor_requests` that the gate uses.
pub record Visitor : Type 0 where
  pub id : Key
  pub status : PassStatus
  pub starts_at_ms : Option ℕ
  pub ends_at_ms : Option ℕ
  pub visit_times : ℕ
  pub require_gate_id_verification : Bool
  pub checked_in_at : Option ℕ
  pub checked_out_at : Option ℕ
  pub rejected_at : Option ℕ

pub record Db : Type 0 where
  pub visitors : List Visitor
  pub scans : List Scan

abbrev pub is_expired : PassStatus → Bool
is_expired PassStatus.expired = true
is_expired _ = false

abbrev pub is_accepted : ScanDecision → Bool
is_accepted accepted = true
is_accepted _ = false

abbrev pub is_previewed : ScanDecision → Bool
is_previewed previewed = true
is_previewed _ = false

abbrev pub is_in : Action → Bool
is_in action_in = true
is_in _ = false

abbrev pub is_out : Action → Bool
is_out action_out = true
is_out _ = false

-- `CHECK (action IN ('in','out'))` of the table of scans, which lets NULL through.
abbrev pub is_storable : Option Action → Bool
is_storable none = true
is_storable (some action_in) = true
is_storable (some action_out) = true
is_storable (some action_other) = false

abbrev pub is_in_action : Option Action → Bool
is_in_action none = false
is_in_action (some a) = is_in a

abbrev pub belongs_to : Option Key → Key → Bool
belongs_to none k = false
belongs_to (some j) k = j == k

-- The rows that `VISITS_USED_SQL` counts.
abbrev pub is_visit_of : Key → Scan → Bool
is_visit_of visitor s =
    belongs_to s.visitor_request_id visitor && is_accepted s.decision && is_in_action s.action

abbrev pub visits_used : Key → Db → ℕ
visits_used visitor db = count (is_visit_of visitor) db.scans

-- What the officer sends; `decision` is `accepted` or `rejected`, others are refused first.
pub record Request : Type 0 where
  pub decision : Option ScanDecision
  pub action : Option Action
  pub scan_id : Option Key
  pub gate_proofs : ℕ

pub data Response : Type 0 where
  bad_decision scan_missing scan_unavailable visitor_not_found proof_required : Response
  pass_not_valid : Option Rejection → Response
  decided : ℕ → Response
  -- the UPDATE of the scan throws
  failed : Response

abbrev pub window_of : Visitor → ℕ → PassWindow
window_of v used = record {
  status = v.status;
  starts_at_ms = v.starts_at_ms;
  ends_at_ms = v.ends_at_ms;
  visit_times = some v.visit_times;
  visits_used = some used;
}

-- `action==='out' && wasInside`
abbrev pub releasing : Visitor → Action → Bool
releasing v action =
    is_out action
    && (is_checked_in v.status || is_expired v.status && not (is_null v.checked_in_at))

pub set_visitor : ℕ → Bool → Action → Visitor → Visitor
set_visitor now true action_in v = record v {
  status = PassStatus.checked_in;
  checked_in_at = some now;
  rejected_at = none;
}
set_visitor now true _ v = record v { status = PassStatus.checked_out; checked_out_at = some now }
set_visitor now false _ v = record v { rejected_at = some now }

abbrev pub is_scan_of : Key → Key → Scan → Bool
is_scan_of scan officer s = s.id == scan && s.scanned_by == officer

abbrev pub set_scan : Bool → Option Action → Scan → Scan
set_scan accept action s = record s {
  decision = if accept then accepted else rejected;
  action = action;
}

-- The writes of a decision that is not refused, one UPDATE each.
pub write_visitor : ℕ → Key → Bool → Option Action → Db → Db
write_visitor now visitor accept action db = record db {
  visitors =
      update (λ v. v.id == visitor) (set_visitor now accept (value_or action action_in))
        db.visitors;
}

pub write_scan : Key → Key → Bool → Option Action → Db → Db
write_scan officer scan accept action db = record db {
  scans = update (is_scan_of scan officer) (set_scan accept action) db.scans;
}

pub record_decision : ℕ → Key → Key → Key → Bool → Option Action → Db → Db
unfolding write_visitor write_scan
record_decision now officer visitor scan accept action db =
    write_scan officer scan accept action (write_visitor now visitor accept action db)

-- The row found: `id=? AND visitor_request_id=? AND scanned_by=? AND decision='previewed'`.
abbrev pub is_open_scan : Key → Key → Key → Scan → Bool
is_open_scan scan visitor officer s =
    s.id == scan
    && belongs_to s.visitor_request_id visitor
    && s.scanned_by == officer
    && is_previewed s.decision

-- `readVisitTimes` on the number that the column holds.
pub stored_visit_times : Visitor → ℕ
stored_visit_times v = (read_visit_times (some (decimal v.visit_times))).value

-- From the check of the pass on.
pub decide_on : ℕ → Key → Key → Bool → Request → Db → Visitor → Response × Db
decide_on now officer scan accept request db v =
    let used = visits_used v.id db in
    let evaluation = evaluate_visitor_pass (window_of v used) now in
    let action = value_or request.action action_in in
    if accept && not (is_valid evaluation) && not (releasing v action)
    then (pass_not_valid evaluation.reason, db)
    else if accept && is_in action && v.require_gate_id_verification && leb request.gate_proofs 0
    then (proof_required, db)
    else if not (is_storable request.action)
    then (failed, write_visitor now v.id accept request.action db)
    else (
      decided (stored_visit_times v - (used + (if accept && is_in action then 1 else 0))),
      record_decision now officer v.id scan accept request.action db,
    )

pub decide_for : ℕ → Key → Key → Bool → Request → Db → Option Visitor → Response × Db
decide_for now officer scan accept request db none = (visitor_not_found, db)
decide_for now officer scan accept request db (some v) =
    decide_on now officer scan accept request db v

pub decide_found : ℕ → Key → Key → Key → Bool → Request → Db → Option Scan → Response × Db
decide_found now officer visitor scan accept request db none = (scan_unavailable, db)
decide_found now officer visitor scan accept request db (some _) =
    decide_for now officer scan accept request db (first (λ v. v.id == visitor) db.visitors)

pub decide_scan : ℕ → Key → Key → Key → Bool → Request → Db → Response × Db
decide_scan now officer visitor scan accept request db =
    decide_found now officer visitor scan accept request db
      (first (is_open_scan scan visitor officer) db.scans)

pub decide_decision : ℕ → Key → Key → Option Key → Bool → Request → Db → Response × Db
decide_decision now officer visitor none accept request db = (scan_missing, db)
decide_decision now officer visitor (some scan) accept request db =
    decide_scan now officer visitor scan accept request db

-- From the check of `decision` on.
pub decide_by : ℕ → Key → Key → Request → Db → Option ScanDecision → Response × Db
decide_by now officer visitor request db none = (bad_decision, db)
decide_by now officer visitor request db (some previewed) = (bad_decision, db)
decide_by now officer visitor request db (some invalid) = (bad_decision, db)
decide_by now officer visitor request db (some accepted) =
    decide_decision now officer visitor request.scan_id true request db
decide_by now officer visitor request db (some rejected) =
    decide_decision now officer visitor request.scan_id false request db

-- The handler.
pub handle_decision : ℕ → Key → Key → Request → Db → Response × Db
handle_decision now officer visitor request db =
    decide_by now officer visitor request db request.decision
