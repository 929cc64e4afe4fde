-- ===== src/Gate/Answered.antt =====
-- What the gate route of src/index.ts has found when it answers with a decision, and what it leaves
-- alone when it answers otherwise.
use estatemate_minmoe.Prelude.{
  ℕ, Bool, true, false, Option, none, some, ◌==◌, any, first, value_or, update, if◌then◌else◌, ◌≡◌,
  refl, ◌⊎◌, inl, inr, Bool-cases, sym, ◌∙◌, ap, arith, ==_iff, first-holds, first-any,
}
use estatemate_minmoe.Hardware.{Key}
use estatemate_minmoe.VisitorPass.{Rejection}
use estatemate_minmoe.Gate.{
  Action, action_in, action_out, action_other, is_storable, failed, set_visitor, write_visitor,
  ScanDecision, previewed, accepted, rejected, invalid, Scan, Visitor, Db, Request, Response,
  decided, pass_not_valid, proof_required, is_open_scan, decide_on, decide_for, decide_found,
  decide_scan, decide_decision, decide_by, handle_decision,
}

abbrev pub answer_number : Response → Option ℕ
answer_number (decided n) = some n
answer_number _ = none

module _ (now : ℕ) (officer visitor : Key) (request : Request) (db : Db) where
  answered_for :
      (scan : Key) (accept : Bool) (o : Option Visitor) (n : ℕ)
      → (decide_for now officer scan accept request db o).0 ≡ decided n
      → (v : Visitor) × (o ≡ some v)
        × (decide_for now officer scan accept request db o
            ≡ decide_on now officer scan accept request db v)
  unfolding decide_for
  answered_for scan accept none n h = grind (arith, ap answer_number h)
  answered_for scan accept (some v) n h = (v, refl, refl)

  answered_found :
      (scan : Key) (accept : Bool) (o : Option Scan) (n : ℕ)
      → (decide_found now officer visitor scan accept request db o).0 ≡ decided n
      → (s : Scan) × (o ≡ some s)
        × (decide_found now officer visitor scan accept request db o
            ≡ decide_for now officer scan accept request db
                (first (λ w. w.id == visitor) db.visitors))
  unfolding decide_found
  answered_found scan accept none n h = grind (arith, ap answer_number h)
  answered_found scan accept (some s) n h = (s, refl, refl)

  answered_scan :
      (scan : Key) (accept : Bool) (n : ℕ)
      → (decide_scan now officer visitor scan accept request db).0 ≡ decided n
      → (v : Visitor) × (any (is_open_scan scan visitor officer) db.scans ≡ true)
        × (first (λ w. w.id == visitor) db.visitors ≡ some v)
        × (decide_scan now officer visitor scan accept request db
            ≡ decide_on now officer scan accept request db v)
  unfolding decide_scan
  answered_scan scan accept n h =
      let opened =
        answered_found scan accept (first (is_open_scan scan visitor officer) db.scans) n h in
      let seen =
        answered_for scan accept (first (λ w. w.id == visitor) db.visitors) n
          (sym (ap (λ r. r.0) opened.2) ∙ h) in
      (
        seen.0,
        first-any (is_open_scan scan visitor officer) db.scans opened.0 opened.1,
        seen.1,
        opened.2 ∙ seen.2,
      )

  answered_decision :
      (scan : Option Key) (accept : Bool) (n : ℕ)
      → (decide_decision now officer visitor scan accept request db).0 ≡ decided n
      → (k : Key) × (scan ≡ some k)
        × (decide_decision now officer visitor scan accept request db
            ≡ decide_scan now officer visitor k accept request db)
  unfolding decide_decision
  answered_decision none accept n h = grind (arith, ap answer_number h)
  answered_decision (some k) accept n h = (k, refl, refl)

  -- The rows behind a decision, and the run of `decide_on` on them.
  abbrev pub Ran : Option ScanDecision → Type 0
  Ran d =
      (accept : Bool) × (scan : Key) × (v : Visitor) × (d
        ≡ some (if accept then accepted else rejected))
      × (request.scan_id ≡ some scan)
      × (any (is_open_scan scan visitor officer) db.scans ≡ true)
      × (first (λ w. w.id == visitor) db.visitors ≡ some v)
      × (v.id ≡ visitor)
      × (decide_by now officer visitor request db d
          ≡ decide_on now officer scan accept request db v)

  key_lem : (v : Visitor) → first (λ w. w.id == visitor) db.visitors ≡ some v → v.id ≡ visitor
  key_lem v h =
      ground (arith, first-holds (λ w. w.id == visitor) db.visitors v h, ==_iff v.id visitor)

  answered_with :
      (accept : Bool) (n : ℕ)
      → (decide_decision now officer visitor request.scan_id accept request db).0 ≡ decided n
      → (scan : Key) × (v : Visitor) × (request.scan_id ≡ some scan)
        × (any (is_open_scan scan visitor officer) db.scans ≡ true)
        × (first (λ w. w.id == visitor) db.visitors ≡ some v)
        × (decide_decision now officer visitor request.scan_id accept request db
            ≡ decide_on now officer scan accept request db v)
  answered_with accept n h =
      let named = answered_decision request.scan_id accept n h in
      let ran = answered_scan named.0 accept n (sym (ap (λ r. r.0) named.2) ∙ h) in
      (named.0, ran.0, named.1, ran.1, ran.2, named.2 ∙ ran.3)

  answered_by :
      (d : Option ScanDecision) (n : ℕ)
      → (decide_by now officer visitor request db d).0 ≡ decided n
      → Ran d
  unfolding decide_by
  answered_by none n h = grind (arith, ap answer_number h)
  answered_by (some previewed) n h = grind (arith, ap answer_number h)
  answered_by (some invalid) n h = grind (arith, ap answer_number h)
  answered_by (some accepted) n h =
      let ran = answered_with true n h in
      (true, ran.0, ran.1, refl, ran.2, ran.3, ran.4, key_lem ran.1 ran.4, ran.5)
  answered_by (some rejected) n h =
      let ran = answered_with false n h in
      (false, ran.0, ran.1, refl, ran.2, ran.3, ran.4, key_lem ran.1 ran.4, ran.5)

  -- The same, for the row that the table is known to hold.
  pub answered_for_row :
      (v : Visitor) (n : ℕ)
      → first (λ w. w.id == visitor) db.visitors ≡ some v
      → (handle_decision now officer visitor request db).0 ≡ decided n
      → (accept : Bool) × (scan : Key) × (request.decision
          ≡ some (if accept then accepted else rejected))
        × (request.scan_id ≡ some scan)
        × (any (is_open_scan scan visitor officer) db.scans ≡ true)
        × (v.id ≡ visitor)
        × (handle_decision now officer visitor request db
            ≡ decide_on now officer scan accept request db v)
  unfolding handle_decision
  answered_for_row v n found h =
      let ran = answered_by request.decision n h in
      let same : ran.2 ≡ v = ap (λ o. value_or o v) (sym ran.6 ∙ found) in
      (
        ran.0,
        ran.1,
        ran.3,
        ran.4,
        ran.5,
        sym (ap Visitor.id same) ∙ ran.7,
        ran.8 ∙ ap (decide_on now officer ran.1 ran.0 request db) same,
      )

abbrev pub is_decided : Response → Bool
is_decided (decided n) = true
is_decided _ = false

module _ (now : ℕ) (officer visitor : Key) (request : Request) (db : Db) where
  -- Nothing is changed; or the route has thrown at an `action` that is neither `in` nor `out`, with the
  -- scan as it was and the visitor written already.
  abbrev pub Unfinished : Response × Db → Type 0
  Unfinished r =
      (r.1 ≡ db)
      ⊎ (accept : Bool) × (r.0 ≡ failed)
        × (request.action ≡ some action_other)
        × (request.decision ≡ some (if accept then accepted else rejected))
        × (r.1.scans ≡ db.scans)
        × (r.1.visitors
            ≡ update (λ v. v.id == visitor) (set_visitor now accept action_other) db.visitors)

  abbrev Thrown : Bool → Response × Db → Type 0
  Thrown accept r =
      (r.0 ≡ failed)
      × (request.action ≡ some action_other)
      × (r.1.scans ≡ db.scans)
      × (r.1.visitors
          ≡ update (λ v. v.id == visitor) (set_visitor now accept action_other) db.visitors)

  abbrev Kept : Bool → Response × Db → Type 0
  Kept accept r = is_decided r.0 ≡ false → (r.1 ≡ db) ⊎ Thrown accept r

  other_lem : (a : Option Action) → is_storable a ≡ false → a ≡ some action_other
  other_lem none h = grind arith
  other_lem (some action_in) h = grind arith
  other_lem (some action_out) h = grind arith
  other_lem (some action_other) h = refl

  thrown_lem :
      (accept : Bool) (v : Visitor) (a : Option Action)
      → a ≡ some action_other
      → v.id ≡ visitor
      → (write_visitor now v.id accept a db).visitors
        ≡ update (λ v. v.id == visitor) (set_visitor now accept action_other) db.visitors
  unfolding write_visitor
  thrown_lem accept v a e own = rw (e, own) refl

  abbrev cut_short : Bool → Bool → Option Rejection → Db → Response × Db
  cut_short b c reason changed =
      if b
      then (pass_not_valid reason, db)
      else if c
      then (proof_required, db)
      else (failed, changed)

  cut_short_lem :
      (b c : Bool) (reason : Option Rejection) (changed : Db)
      → ((cut_short b c reason changed).1 ≡ db) ⊎ (cut_short b c reason changed ≡ (failed, changed))
  cut_short_lem true c reason changed = inl refl
  cut_short_lem false true reason changed = inl refl
  cut_short_lem false false reason changed = inr refl

  odd_lem :
      (scan : Key) (accept : Bool) (v : Visitor)
      → is_storable request.action ≡ false
      → ((decide_on now officer scan accept request db v).1 ≡ db)
        ⊎ (decide_on now officer scan accept request db v
            ≡ (failed, write_visitor now v.id accept request.action db))
  unfolding decide_on
  odd_lem scan accept v odd =
      rw odd (cut_short_lem _ _ _ (write_visitor now v.id accept request.action db))

  scans-write_visitor :
      (k : Key) (accept : Bool) (a : Option Action)
      → (write_visitor now k accept a db).scans ≡ db.scans
  unfolding write_visitor
  scans-write_visitor k accept a = refl

  Kept-on :
      (scan : Key) (accept : Bool) (v : Visitor)
      → v.id ≡ visitor
      → Kept accept (decide_on now officer scan accept request db v)
  unfolding decide_on
  Kept-on scan accept v own h = elim (Bool-cases (is_storable request.action)) [
    | inl fine ↦ inl (ground (arith, fine))
    | inr odd ↦
        let other = other_lem request.action odd in
        elim (odd_lem scan accept v odd) [
          | inl same ↦ inl same
          | inr run ↦ inr (
            ap (λ r. r.0) run,
            other,
            ap (λ r. r.1.scans) run ∙ scans-write_visitor v.id accept request.action,
            ap (λ r. r.1.visitors) run ∙ thrown_lem accept v request.action other own,
          )
        ]
  ]

  Kept-for :
      (scan : Key) (accept : Bool) (o : Option Visitor)
      → ((v : Visitor) → o ≡ some v → v.id ≡ visitor)
      → Kept accept (decide_for now officer scan accept request db o)
  unfolding decide_for
  Kept-for scan accept none k h = inl refl
  Kept-for scan accept (some v) k h = Kept-on scan accept v (k v refl) h

  Kept-found :
      (scan : Key) (accept : Bool) (o : Option Scan)
      → Kept accept (decide_found now officer visitor scan accept request db o)
  unfolding decide_found
  Kept-found scan accept none h = inl refl
  Kept-found scan accept (some s) h =
      Kept-for scan accept _ (λ v e. key_lem now officer visitor request db v e) h

  Kept-decision :
      (scan : Option Key) (accept : Bool)
      → Kept accept (decide_decision now officer visitor scan accept request db)
  unfolding decide_decision decide_scan
  Kept-decision none accept h = inl refl
  Kept-decision (some scan) accept h = Kept-found scan accept _ h

  decided_as :
      (accept : Bool) (r : Response × Db)
      → request.decision ≡ some (if accept then accepted else rejected)
      → (r.1 ≡ db) ⊎ Thrown accept r
      → Unfinished r
  decided_as accept r d (inl same) = inl same
  decided_as accept r d (inr (threw, other, scans, visitors)) =
      inr (accept, threw, other, d, scans, visitors)

  Kept-by :
      (d : Option ScanDecision)
      → request.decision ≡ d
      → is_decided (decide_by now officer visitor request db d).0 ≡ false
      → Unfinished (decide_by now officer visitor request db d)
  unfolding decide_by
  Kept-by none e h = inl refl
  Kept-by (some previewed) e h = inl refl
  Kept-by (some invalid) e h = inl refl
  Kept-by (some accepted) e h = decided_as true _ e (Kept-decision request.scan_id true h)
  Kept-by (some rejected) e h = decided_as false _ e (Kept-decision request.scan_id false h)

  -- A request that does not end in a decision leaves every visitor and every scan as it was, with one
  -- exception: where its `action` is neither `in` nor `out` the route may throw, and then the scan is as it
  -- was while the visitor is written already, checked out if the decision was `accepted`.
  pub kept-handle_decision :
      is_decided (handle_decision now officer visitor request db).0 ≡ false
      → Unfinished (handle_decision now officer visitor request db)
  unfolding handle_decision
  kept-handle_decision h = Kept-by request.decision refl h
