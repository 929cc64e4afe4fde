-- ===== src/Gate/Tests.antt =====
-- The theorems on the gate of src/index.ts at a concrete visitor, and runs of the route.
use estatemate_minmoe.Prelude.{
  ℕ, true, false, none, some, [], ◌∷◌, ◌==◌, first, ◌≡◌, refl, ap, arith, inl, inr, Bool-cases,
  ==_iff,
}
use estatemate_minmoe.Prelude.Text.{trim, is_space, is_digit, number_from}
use estatemate_minmoe.Prelude.Json.{decimal}
use estatemate_minmoe.VisitorAccount.{read_visit_times, text}
use estatemate_minmoe.VisitorPass.{evaluate_visitor_pass}
use estatemate_minmoe.Visitor.Tables.{active, checked_in, checked_out}
use estatemate_minmoe.Gate.{
  action_in, action_out, action_other, failed, previewed, accepted, Visitor, Db, Request, decided,
  scan_unavailable, visits_used, handle_decision, decide_by, decide_decision, decide_scan,
  decide_found, decide_for, decide_on, stored_visit_times,
}
use estatemate_minmoe.Gate.Answered.{is_decided, Unfinished, kept-handle_decision}
use estatemate_minmoe.Gate.Allowance.{IsKeyed}
use estatemate_minmoe.Gate.Release.{
  unstated-handle_decision, again-handle_decision, out-handle_decision,
}

-- A pass for two visits, from 100 to 900.
abbrev guest : Visitor
guest = record {
  id = 7;
  status = active;
  starts_at_ms = some 100;
  ends_at_ms = some 900;
  visit_times = 2;
  require_gate_id_verification = true;
  checked_in_at = none;
  checked_out_at = none;
  rejected_at = none;
}

-- One visit is used, and officer 3 has previewed the pass again.
abbrev gate : Db
gate = record {
  visitors = guest ∷ [];
  scans =
      record {
        id = 21;
        visitor_request_id = some 7;
        scanned_by = 3;
        decision = accepted;
        action = some action_in;
      }
      ∷ record {
        id = 22;
        visitor_request_id = some 7;
        scanned_by = 3;
        decision = previewed;
        action = none;
      }
      ∷ [];
}

abbrev entry : Request
entry = record {
  decision = some accepted;
  action = some action_in;
  scan_id = some 22;
  gate_proofs = 1;
}

-- The same gate with the visitor inside after the end of the window.
abbrev late_guest : Visitor
late_guest = record guest { status = checked_in; checked_in_at = some 500 }

abbrev late_gate : Db
late_gate = record gate { visitors = late_guest ∷ [] }

gate-IsKeyed : IsKeyed gate
gate-IsKeyed k = elim (Bool-cases (21 == k)) [
  | inl here ↦ ground (arith, ==_iff 21 k, ==_iff 22 k)
  | inr there ↦ ground arith
]

entry_answer : (handle_decision 500 3 7 entry gate).0 ≡ decided 0
unfolding handle_decision decide_by decide_decision decide_scan decide_found decide_for decide_on
    evaluate_visitor_pass stored_visit_times read_visit_times text trim decimal is_space is_digit
    number_from
entry_answer = refl

-- The same request without its `action`.
abbrev unstated_entry : Request
unstated_entry = record entry { action = none }

unstated_answer : (handle_decision 500 3 7 unstated_entry gate).0 ≡ decided 0
unfolding handle_decision decide_by decide_decision decide_scan decide_found decide_for decide_on
    evaluate_visitor_pass stored_visit_times read_visit_times text trim decimal is_space is_digit
    number_from
unstated_answer = refl

unstated-handle_decision_example :
    (visits_used 7 (handle_decision 500 3 7 unstated_entry gate).1 ≡ 1)
    × (first (λ w. w.id == 7) (handle_decision 500 3 7 unstated_entry gate).1.visitors
        ≡ some (record guest { status = checked_in; checked_in_at = some 500; rejected_at = none }))
unstated-handle_decision_example =
    unstated-handle_decision 500 3 7 unstated_entry gate guest 0 gate-IsKeyed refl refl refl
      unstated_answer

again-handle_decision_example :
    handle_decision 600 3 7 entry (handle_decision 500 3 7 entry gate).1
    ≡ (scan_unavailable, (handle_decision 500 3 7 entry gate).1)
again-handle_decision_example =
    again-handle_decision 500 600 3 7 7 entry entry gate guest 0 refl entry_answer refl true refl

abbrev leaving : Request
leaving = record entry { action = some action_out }

out-handle_decision_example :
    ((n : ℕ) × ((handle_decision 950 3 7 leaving late_gate).0 ≡ decided n))
    × (first (λ w. w.id == 7) (handle_decision 950 3 7 leaving late_gate).1.visitors
        ≡ some (record late_guest { status = checked_out; checked_out_at = some 950 }))
out-handle_decision_example =
    out-handle_decision 950 3 7 22 leaving late_gate late_guest refl refl refl refl refl refl

-- An entry after the end of the window, which is refused.
late_answer : is_decided (handle_decision 950 3 7 entry gate).0 ≡ false
unfolding handle_decision decide_by decide_decision decide_scan decide_found decide_for decide_on
    evaluate_visitor_pass stored_visit_times read_visit_times text trim decimal is_space is_digit
    number_from
late_answer = refl

-- An `action` that the route does not know, on a valid pass.
abbrev odd_entry : Request
odd_entry = record entry { action = some action_other }

odd_answer : (handle_decision 500 3 7 odd_entry gate).0 ≡ failed
unfolding handle_decision decide_by decide_decision decide_scan decide_found decide_for decide_on
    evaluate_visitor_pass stored_visit_times read_visit_times text trim decimal is_space is_digit
    number_from
odd_answer = refl

odd_undecided : is_decided (handle_decision 500 3 7 odd_entry gate).0 ≡ false
odd_undecided = ap is_decided odd_answer

kept-handle_decision_example :
    Unfinished 500 3 7 odd_entry gate (handle_decision 500 3 7 odd_entry gate)
kept-handle_decision_example = kept-handle_decision 500 3 7 odd_entry gate odd_undecided
