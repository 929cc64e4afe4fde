-- ===== src/Agent/Final.antt =====
-- What claims and reports leave alone, in src/index.ts.
use estatemate_minmoe.Prelude.{
  ℕ, ◌+◌, Bool, true, false, ◌&&◌, ◌||◌, Option, some, List, [], ◌∷◌, ◌==◌, leb, ltb, any, update,
  count, first, ◌≡◌, refl, sym, ap, ◌∙◌, value_or, inl, inr, arith, Bool-cases,
}
use estatemate_minmoe.Hardware.{
  Key, OperationStatus, is_applied, is_pending, is_sent, is_failed, holds_key,
}
use estatemate_minmoe.Agent.{
  Operation, Db, OperationTable, device_table, visitor_table, table_of, Outcome, succeeded, refused,
  is_claimed_by, claimed, claim_one, claim_all, claim_operations, is_reportable, reported,
  not_found, report_result, offered,
}

-- An UPDATE that keeps keys leaves a row that it does not select.
first-update-kept {ℓ} :
    {A : Type ℓ} (q p : A → Bool) (f : A → A) (xs : List A) (a : A)
    → ((x : A) → q (f x) ≡ q x)
    → p a ≡ false
    → first q xs ≡ some a
    → first q (update p f xs) ≡ some a
first-update-kept q p f [] a k h found = found
first-update-kept q p f (x ∷ xs) a k h found = elim (Bool-cases (q x)) [
  | inl here ↦
      let head : first q (x ∷ xs) ≡ some x = rw here refl in
      let same : x ≡ a = ap (λ o. value_or o x) (sym head ∙ found) in
      let left : p x ≡ false = ap p same ∙ h in rw (left, here, same) refl
  | inr there ↦
      let tail : first q (x ∷ xs) ≡ first q xs = rw there refl in
      let later : first q xs ≡ some a = sym tail ∙ found in
      ground (arith, k x, first-update-kept q p f xs a k h later)
]

-- The requests of agents.
pub data Request : Type 0 where
  claim : Key → Option ℕ → Request
  report : Key → Key → Outcome → Request

abbrev pub serve : ℕ → Request → Db → Db
serve now (claim agent limit) db = (claim_operations now agent limit db).1
serve now (report agent id outcome) db = (report_result now agent id outcome db).1

-- Requests one after the other, each with its time.
abbrev pub serve_all : List (ℕ × Request) → Db → Db
serve_all [] db = db
serve_all (r ∷ rs) db = serve_all rs (serve r.0 r.1 db)

abbrev pub find_operation : OperationTable → Key → Db → Option Operation
find_operation table id db = first (λ o. o.id == id) (table_of table db)

applied_lem :
    (s : OperationStatus) (b : Bool)
    → is_applied s ≡ true
    → ((is_pending s || is_sent s && b) ≡ false)
      × ((is_pending s || is_sent s || is_failed s) ≡ false)
applied_lem OperationStatus.applied b h = (refl, refl)
applied_lem OperationStatus.pending b h = grind arith
applied_lem OperationStatus.sent b h = grind arith
applied_lem OperationStatus.failed b h = grind arith
applied_lem OperationStatus.manual_action_required b h = grind arith

claimed_kept :
    (now : ℕ) (offer r : Operation) → is_applied r.status ≡ true → is_claimed_by now offer r ≡ false
claimed_kept now offer r h =
    ground (arith, (applied_lem r.status (ltb (r.updated_at + 120) now) h).0)

reported_kept :
    (db : Db) (agent id : Key) (r : Operation)
    → is_applied r.status ≡ true
    → is_reportable db agent id r ≡ false
reported_kept db agent id r h = ground (arith, (applied_lem r.status true h).1)

module _ (k : Key) (r : Operation) (done : is_applied r.status ≡ true) where
  claim_kept :
      (now : ℕ) (agent : Key) (offer : Operation) (operations : List Operation)
      → first (λ o. o.id == k) operations ≡ some r
      → first (λ o. o.id == k) (update (is_claimed_by now offer) (claimed now agent) operations)
        ≡ some r
  claim_kept now agent offer operations found =
      first-update-kept (λ o. o.id == k) (is_claimed_by now offer) (claimed now agent) operations r
        (λ o. refl) (claimed_kept now offer r done) found

  report_kept :
      (now : ℕ) (agent id : Key) (outcome : Outcome) (db : Db) (operations : List Operation)
      → first (λ o. o.id == k) operations ≡ some r
      → first
          (λ o. o.id == k)
          (update (is_reportable db agent id) (reported now agent outcome) operations)
        ≡ some r
  report_kept now agent id succeeded db operations found =
      first-update-kept (λ o. o.id == k) (is_reportable db agent id) (reported now agent succeeded)
        operations r (λ o. refl) (reported_kept db agent id r done) found
  report_kept now agent id (refused m) db operations found =
      first-update-kept (λ o. o.id == k) (is_reportable db agent id)
        (reported now agent (refused m)) operations r (λ o. refl) (reported_kept db agent id r done)
        found

  claim_one-kept :
      (table t : OperationTable) (now : ℕ) (agent : Key) (offer : Operation) (db : Db)
      → find_operation table k db ≡ some r
      → find_operation table k (claim_one now agent (t, offer) db) ≡ some r
  unfolding claim_one
  claim_one-kept device_table device_table now agent offer db found =
      claim_kept now agent offer db.device_operations found
  claim_one-kept device_table visitor_table now agent offer db found = found
  claim_one-kept visitor_table device_table now agent offer db found = found
  claim_one-kept visitor_table visitor_table now agent offer db found =
      claim_kept now agent offer db.visitor_operations found

  claim_all-kept :
      (table : OperationTable) (now : ℕ) (agent : Key) (offers : List (OperationTable × Operation))
      (db : Db)
      → find_operation table k db ≡ some r
      → find_operation table k (claim_all now agent offers db).1 ≡ some r
  unfolding claim_all
  claim_all-kept table now agent [] db found = found
  claim_all-kept table now agent ((t, o) ∷ os) db found =
      let rest =
        claim_all-kept table now agent os (claim_one now agent (t, o) db)
          (claim_one-kept table t now agent o db found) in
      elim (Bool-cases (leb 1 (count (is_claimed_by now o) (table_of t db)))) [
        | inl taken ↦ rw taken rest
        | inr missed ↦ rw missed rest
      ]

  report_result-kept :
      (table : OperationTable) (now : ℕ) (agent id : Key) (outcome : Outcome) (db : Db)
      → find_operation table k db ≡ some r
      → find_operation table k (report_result now agent id outcome db).1 ≡ some r
  unfolding report_result
  report_result-kept device_table now agent id outcome db found =
      ground (arith, report_kept now agent id outcome db db.device_operations found)
  report_result-kept visitor_table now agent id outcome db found =
      ground (arith, report_kept now agent id outcome db db.visitor_operations found)

  serve-kept :
      (table : OperationTable) (now : ℕ) (request : Request) (db : Db)
      → find_operation table k db ≡ some r
      → find_operation table k (serve now request db) ≡ some r
  unfolding claim_operations
  serve-kept table now (claim agent limit) db found =
      claim_all-kept table now agent (offered now agent limit db) db found
  serve-kept table now (report agent id outcome) db found =
      report_result-kept table now agent id outcome db found

-- Applied is final: whatever agents claim and report afterwards, in whatever order and at whatever times, an
-- operation that has been applied keeps its row as it is.
pub applied-serve_all :
    (table : OperationTable) (id : Key) (r : Operation) (requests : List (ℕ × Request)) (db : Db)
    → is_applied r.status ≡ true
    → find_operation table id db ≡ some r
    → find_operation table id (serve_all requests db) ≡ some r
applied-serve_all table id r [] db done found = found
applied-serve_all table id r ((now, request) ∷ rest) db done found =
    applied-serve_all table id r rest (serve now request db) done
      (serve-kept id r done table now request db found)

-- Whether a configuration gives the agent the terminal of the operation.
abbrev pub is_linked : Db → Key → Operation → Bool
is_linked db agent o =
    any (λ c. c.device_id == o.device_id && holds_key c.agent_id agent) db.configs

unlinked_lem :
    (db : Db) (agent id : Key) (operations : List Operation)
    → any (λ o. o.id == id && is_linked db agent o) operations ≡ false
    → count (is_reportable db agent id) operations ≡ 0
unlinked_lem db agent id [] h = refl
unlinked_lem db agent id (o ∷ os) h = ground (arith, unlinked_lem db agent id os)

-- An agent reports only for its own terminals: when no operation under that id belongs to a terminal
-- that is linked to it, the report is refused and changes nothing.
pub unlinked-report_result :
    (now : ℕ) (agent id : Key) (outcome : Outcome) (db : Db)
    → any (λ o. o.id == id && is_linked db agent o) db.device_operations ≡ false
    → any (λ o. o.id == id && is_linked db agent o) db.visitor_operations ≡ false
    → report_result now agent id outcome db ≡ (not_found, db)
unfolding report_result
unlinked-report_result now agent id outcome db h k =
    rw
      (
        unlinked_lem db agent id db.device_operations h,
        unlinked_lem db agent id db.visitor_operations k,
      )
      refl
