-- ===== src/Gate/Allowance.antt =====
-- The visits that the gate route of src/index.ts counts against a pass.
use estatemate_minmoe.Prelude.{
  ℕ, ◌+◌, ◌-◌, ◌≤◌, Bool, true, false, not, ◌&&◌, Option, ◌==◌, leb, if◌then◌else◌, any, count,
  value_or, ◌≡◌, refl, ap, arith, count-narrow, count-update_found,
}
use estatemate_minmoe.Hardware.{Key}
use estatemate_minmoe.VisitorPass.{Rejection, evaluate_visitor_pass, is_valid}
use estatemate_minmoe.Gate.{
  Action, action_in, ScanDecision, previewed, accepted, rejected, invalid, is_accepted,
  is_previewed, belongs_to, Visitor, Db, Request, Response, decided, pass_not_valid, proof_required,
  failed, is_storable, write_visitor, write_scan, is_in, is_in_action, is_visit_of, visits_used,
  is_scan_of, is_open_scan, set_scan, releasing, window_of, record_decision, stored_visit_times,
  decide_on,
}
use estatemate_minmoe.Gate.Answered.{answer_number}

-- Scan ids are a primary key.
abbrev pub IsKeyed : Db → Type 0
IsKeyed db = (k : Key) → count (λ s. s.id == k) db.scans ≤ 1

previewed_uncounted :
    (d : ScanDecision) (a b : Bool) → is_previewed d ≡ true → (a && is_accepted d && b) ≡ false
previewed_uncounted previewed a b h = ground arith
previewed_uncounted accepted a b h = grind arith
previewed_uncounted rejected a b h = grind arith
previewed_uncounted invalid a b h = grind arith

pub visits_used-record_decision :
    (now : ℕ) (officer visitor scan : Key) (accept : Bool) (action : Option Action) (db : Db)
    → IsKeyed db
    → any (is_open_scan scan visitor officer) db.scans ≡ true
    → visits_used visitor (record_decision now officer visitor scan accept action db)
      ≡ visits_used visitor db + (if accept && is_in_action action then 1 else 0)
unfolding record_decision write_visitor write_scan
visits_used-record_decision now officer visitor scan accept action db keyed open_row =
    count-update_found (is_visit_of visitor) (is_scan_of scan officer)
      (is_open_scan scan visitor officer) (set_scan accept action) (accept && is_in_action action)
      db.scans (λ s h. ground arith)
      (λ s h.
        previewed_uncounted s.decision (belongs_to s.visitor_request_id visitor) _ (ground arith))
      (λ s h. ground arith)
      (omega (
        arith,
        keyed scan,
        count-narrow (is_scan_of scan officer) (λ s. s.id == scan) db.scans (λ s h. ground arith),
      ))
      open_row

abbrev outcome : Bool → Bool → Bool → Option Rejection → Db → Db → Db → ℕ → Response × Db
outcome b c d reason db written changed m =
    if b
    then (pass_not_valid reason, db)
    else if c
    then (proof_required, db)
    else if d
    then (failed, written)
    else (decided m, changed)

-- A decision is the answer of the last branch only.
last_branch :
    (b c d : Bool) (reason : Option Rejection) (db written changed : Db) (m n : ℕ)
    → (outcome b c d reason db written changed m).0 ≡ decided n
    → (b ≡ false) × (c ≡ false) × (d ≡ false) × (m ≡ n)
last_branch true c d reason db written changed m n h = grind (arith, ap answer_number h)
last_branch false true d reason db written changed m n h = grind (arith, ap answer_number h)
last_branch false false true reason db written changed m n h = grind (arith, ap answer_number h)
last_branch false false false reason db written changed m n h =
    (refl, refl, refl, grind (arith, ap answer_number h))

module _ (now : ℕ) (officer scan : Key) (accept : Bool) (request : Request) (db : Db)
    (v : Visitor) where
  abbrev entering : Bool
  entering = accept && is_in (value_or request.action action_in)

  abbrev refused : Bool
  refused =
      accept
      && not (is_valid (evaluate_visitor_pass (window_of v (visits_used v.id db)) now))
      && not (releasing v (value_or request.action action_in))

  abbrev unproven : Bool
  unproven =
      accept
      && is_in (value_or request.action action_in)
      && v.require_gate_id_verification
      && leb request.gate_proofs 0

  -- What is known when the route answers with a decision.
  pub decided_lem :
      (n : ℕ)
      → (decide_on now officer scan accept request db v).0 ≡ decided n
      → ((decide_on now officer scan accept request db v).1
          ≡ record_decision now officer v.id scan accept request.action db)
        × (n ≡ stored_visit_times v - (visits_used v.id db + (if entering then 1 else 0)))
        × (entering ≡ true
            → is_valid (evaluate_visitor_pass (window_of v (visits_used v.id db)) now) ≡ true)
  unfolding decide_on
  decided_lem n h =
      let branches =
        last_branch refused unproven (not (is_storable request.action)) _ db
          (write_visitor now v.id accept request.action db)
          (record_decision now officer v.id scan accept request.action db) _ n h in
      (
        rw (branches.0, branches.1, branches.2) refl,
        omega (arith, branches.3),
        λ e. ground (arith, branches.0, e),
      )
