-- ===== src/Gate/Release.antt =====
-- What a decision of the gate route of src/index.ts writes: the visitor's row and the scan.
use estatemate_minmoe.Prelude.{
  ℕ, ◌+◌, Bool, true, false, not, ◌&&◌, ◌||◌, Option, none, some, List, [], ◌∷◌, ◌==◌, ◌-◌,
  first-holds, any, first, value_or, if◌then◌else◌, ◌≡◌, refl, ◌∙◌, ap, sym, inl, inr, arith,
  ==_iff, first-update, first-update-none, Bool-cases,
}
use estatemate_minmoe.Hardware.{Key, is_null}
use estatemate_minmoe.Visitor.Tables.{checked_in, checked_out, is_checked_in}
use estatemate_minmoe.VisitorPass.{evaluate_visitor_pass, is_valid}
use estatemate_minmoe.Gate.{
  window_of, Action, action_in, action_out, action_other, write_visitor, write_scan, ScanDecision,
  accepted, rejected, Visitor, Db, Request, decided, scan_unavailable, is_expired, is_in_action,
  is_previewed, visits_used, is_scan_of, is_open_scan, set_scan, set_visitor, belongs_to,
  record_decision, stored_visit_times, decide_on, decide_for, decide_found, decide_scan,
  decide_decision, decide_by, handle_decision,
}
use estatemate_minmoe.Gate.Answered.{answered_for_row}
use estatemate_minmoe.Gate.Allowance.{IsKeyed, visits_used-record_decision, decided_lem}

id-set_visitor :
    (now : ℕ) (accept : Bool) (a : Action) (v : Visitor) → (set_visitor now accept a v).id ≡ v.id
unfolding set_visitor
id-set_visitor now true action_in v = refl
id-set_visitor now true action_out v = refl
id-set_visitor now true action_other v = refl
id-set_visitor now false a v = refl

row-record_decision :
    (now : ℕ) (officer visitor scan : Key) (accept : Bool) (action : Option Action) (db : Db)
    (v : Visitor)
    → first (λ w. w.id == visitor) db.visitors ≡ some v
    → first
        (λ w. w.id == visitor)
        (record_decision now officer visitor scan accept action db).visitors
      ≡ some (set_visitor now accept (value_or action action_in) v)
unfolding record_decision write_visitor write_scan
row-record_decision now officer visitor scan accept action db v found =
    let change = set_visitor now accept (value_or action action_in) in
    let updated =
      first-update (λ w. w.id == visitor) change db.visitors
        (λ w. ap (λ k. k == visitor) (id-set_visitor now accept (value_or action action_in) w)) in
    updated ∙ ap (λ o. elim o [ none ↦ none | some w ↦ some (change w) ]) found

closed_lem :
    (accept a b c : Bool)
    → (a && b && c && is_previewed (if accept then accepted else rejected)) ≡ false
closed_lem true a b c = ground arith
closed_lem false a b c = ground arith

accepting : Option ScanDecision → Bool
accepting (some accepted) = true
accepting _ = false

accept_lem : (b : Bool) → some accepted ≡ some (if b then accepted else rejected) → b ≡ true
unfolding accepting
accept_lem true h = refl
accept_lem false h = sym (ap accepting h)

closed-record_decision :
    (now : ℕ) (officer visitor scan other : Key) (accept : Bool) (action : Option Action) (db : Db)
    → first
        (is_open_scan scan other officer)
        (record_decision now officer visitor scan accept action db).scans
      ≡ none
unfolding record_decision write_visitor write_scan
closed-record_decision now officer visitor scan other accept action db =
    first-update-none (is_open_scan scan other officer) (is_scan_of scan officer)
      (set_scan accept action) db.scans (λ s h. ground arith)
      (λ s.
        closed_lem accept (s.id == scan) (belongs_to s.visitor_request_id other)
          (s.scanned_by == officer))

uncounted : (b : Bool) (n : ℕ) → n + (if b && is_in_action none then 1 else 0) ≡ n
uncounted b n = ground arith

module _ (now : ℕ) (officer visitor scan : Key) (request : Request) (db : Db) where
  refused_by :
      (b : Bool) (o : Option Key)
      → o ≡ some scan
      → first (is_open_scan scan visitor officer) db.scans ≡ none
      → decide_decision now officer visitor o b request db ≡ (scan_unavailable, db)
  unfolding decide_decision decide_scan decide_found
  refused_by b o named closed = rw (named, closed) refl

  -- Without an open scan the request is refused.
  refused_lem :
      (b : Bool)
      → request.decision ≡ some (if b then accepted else rejected)
      → request.scan_id ≡ some scan
      → first (is_open_scan scan visitor officer) db.scans ≡ none
      → handle_decision now officer visitor request db ≡ (scan_unavailable, db)
  unfolding handle_decision decide_by
  refused_lem true valid named closed =
      ap (decide_by now officer visitor request db) valid
      ∙ refused_by true request.scan_id named closed
  refused_lem false valid named closed =
      ap (decide_by now officer visitor request db) valid
      ∙ refused_by false request.scan_id named closed

module _ (now : ℕ) (officer visitor : Key) (request : Request) (db : Db) where
  -- A decision is written as `record_decision` writes it, on the scan that the request names.
  written_lem :
      (v : Visitor) (n : ℕ)
      → first (λ w. w.id == visitor) db.visitors ≡ some v
      → (handle_decision now officer visitor request db).0 ≡ decided n
      → (accept : Bool) × (scan : Key) × (request.decision
          ≡ some (if accept then accepted else rejected))
        × (request.scan_id ≡ some scan)
        × (any (is_open_scan scan visitor officer) db.scans ≡ true)
        × ((handle_decision now officer visitor request db).1
            ≡ record_decision now officer visitor scan accept request.action db)
  written_lem v n found h =
      let ran = answered_for_row now officer visitor request db v n found h in
      let known =
        decided_lem now officer ran.1 ran.0 request db v n (sym (ap (λ r. r.0) ran.6) ∙ h) in
      (
        ran.0,
        ran.1,
        ran.2,
        ran.3,
        ran.4,
        ap (λ r. r.1) ran.6
            ∙ known.0
            ∙ ap (λ k. record_decision now officer k ran.1 ran.0 request.action db) ran.5,
      )

-- For a pass in the table, and scans under unique ids: an accepted decision that states no
-- `action` leaves the visits counted as they were, although it checks the visitor in.
pub unstated-handle_decision :
    (now : ℕ) (officer visitor : Key) (request : Request) (db : Db) (v : Visitor) (n : ℕ)
    → IsKeyed db
    → first (λ w. w.id == visitor) db.visitors ≡ some v
    → request.decision ≡ some accepted
    → request.action ≡ none
    → (handle_decision now officer visitor request db).0 ≡ decided n
    → (visits_used visitor (handle_decision now officer visitor request db).1
        ≡ visits_used visitor db)
      × (first (λ w. w.id == visitor) (handle_decision now officer visitor request db).1.visitors
          ≡ some (record v { status = checked_in; checked_in_at = some now; rejected_at = none }))
unfolding set_visitor
unstated-handle_decision now officer visitor request db v n keyed found acc unstated h =
    let made = written_lem now officer visitor request db v n found h in
    let yes = accept_lem made.0 (sym acc ∙ made.2) in
    let counted =
      visits_used-record_decision now officer visitor made.1 made.0 request.action db keyed
        made.4 in
    let row = row-record_decision now officer visitor made.1 made.0 request.action db v found in
    (
      ap (visits_used visitor) made.5 ∙ counted ∙ rw unstated (uncounted made.0 _),
      ap (λ d. first (λ w. w.id == visitor) d.visitors) made.5
          ∙ row
          ∙ ap (λ b. some (set_visitor now b (value_or request.action action_in) v)) yes
          ∙ ap (λ a. some (set_visitor now true (value_or a action_in) v)) unstated,
    )

-- A scan decides once: after a decision on a pass in the table, whatever its answer was, the
-- officer's next decision on the same scan is refused and changes nothing, at any time and for any
-- visitor.
pub again-handle_decision :
    (now later : ℕ) (officer visitor other : Key) (request again : Request) (db : Db) (v : Visitor)
    (n : ℕ)
    → first (λ w. w.id == visitor) db.visitors ≡ some v
    → (handle_decision now officer visitor request db).0 ≡ decided n
    → again.scan_id ≡ request.scan_id
    → (b : Bool) → again.decision ≡ some (if b then accepted else rejected)
    → handle_decision later officer other again (handle_decision now officer visitor request db).1
      ≡ (scan_unavailable, (handle_decision now officer visitor request db).1)
again-handle_decision now later officer visitor other request again db v n found h same b valid =
    let made = written_lem now officer visitor request db v n found h in
    let closed = closed-record_decision now officer visitor made.1 other made.0 request.action db in
    refused_lem later officer other made.1 again (handle_decision now officer visitor request db).1
      b valid (same ∙ made.3)
      (ap (λ d. first (is_open_scan made.1 other officer) d.scans) made.5 ∙ closed)

any-first {ℓ} :
    {A : Type ℓ} (p : A → Bool) (xs : List A) → any p xs ≡ true → (a : A) × (first p xs ≡ some a)
any-first p [] h = grind arith
any-first p (x ∷ xs) h = elim (Bool-cases (p x)) [
  | inl here ↦ (x, rw here refl)
  | inr there ↦ let rest = any-first p xs (ground arith) in (rest.0, rw there rest.1)
]

-- What `decide_on` answers to an accepted `out` of somebody inside.
leaving_lem :
    (now : ℕ) (officer scan : Key) (request : Request) (db : Db) (v : Visitor)
    → (is_checked_in v.status || is_expired v.status && not (is_null v.checked_in_at)) ≡ true
    → request.action ≡ some action_out
    → decide_on now officer scan true request db v ≡ (
      decided (stored_visit_times v - (visits_used v.id db + 0)),
      record_decision now officer v.id scan true (some action_out) db,
    )
unfolding decide_on
leaving_lem now officer scan request db v inside out =
    let allowed : (not (is_valid (evaluate_visitor_pass (window_of v (visits_used v.id db)) now))
          && not (is_checked_in v.status || is_expired v.status && not (is_null v.checked_in_at)))
        ≡ false =
      ground arith in
    rw (out, allowed) refl

-- Whoever is inside can leave. For a visitor in the table who is checked in, or whose pass expired
-- while checked in, an accepted `out` on a scan that the officer has open for the visitor gets a
-- decision, whatever the window and the visits say, and the visitor is checked out then.
pub out-handle_decision :
    (now : ℕ) (officer visitor scan : Key) (request : Request) (db : Db) (v : Visitor)
    → first (λ w. w.id == visitor) db.visitors ≡ some v
    → any (is_open_scan scan visitor officer) db.scans ≡ true
    → (is_checked_in v.status || is_expired v.status && not (is_null v.checked_in_at)) ≡ true
    → request.decision ≡ some accepted
    → request.scan_id ≡ some scan
    → request.action ≡ some action_out
    → ((n : ℕ) × ((handle_decision now officer visitor request db).0 ≡ decided n))
      × (first (λ w. w.id == visitor) (handle_decision now officer visitor request db).1.visitors
          ≡ some (record v { status = checked_out; checked_out_at = some now }))
unfolding handle_decision decide_by decide_decision decide_scan decide_found decide_for set_visitor
out-handle_decision now officer visitor scan request db v found opened inside acc named out =
    let open_row = any-first (is_open_scan scan visitor officer) db.scans opened in
    let own : v.id ≡ visitor =
      ground (arith, first-holds (λ w. w.id == visitor) db.visitors v found, ==_iff v.id visitor) in
    let ran : handle_decision now officer visitor request db
        ≡ decide_on now officer scan true request db v =
      rw (acc, named, open_row.1, found) refl in
    let run = ran ∙ leaving_lem now officer scan request db v inside out in
    let row = row-record_decision now officer visitor scan true (some action_out) db v found in
    (
      (_, ap (λ r. r.0) run),
      ap (λ r. first (λ w. w.id == visitor) r.1.visitors) run
          ∙ ap
              (λ k.
                first (λ w. w.id == visitor)
                  (record_decision now officer k scan true (some action_out) db).visitors)
              own
          ∙ row,
    )
