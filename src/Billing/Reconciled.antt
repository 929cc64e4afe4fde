-- ===== src/Billing/Reconciled.antt =====
-- The status of a bill of src/index.ts and the payments that count for it.
pub mod Steps
use estatemate_minmoe.Prelude.{
  ℕ, ◌+◌, ◌≤◌, Bool, true, false, not, ◌&&◌, ◌||◌, Option, none, some, List, [], ◌∷◌, ◌++◌, ◌==◌,
  ltb, leb, all, any, update, first, count, total, ◌≡◌, refl, sym, ap, ◌∙◌, arith, inl, inr,
  Bool-cases, Option-cases, ==_refl, ==_iff, first-holds, first-any, first-with, keyed-only,
  total-append, total-update,
}
use estatemate_minmoe.Hardware.{Key}
use estatemate_minmoe.Billing.{
  Bill, BillStatus, unpaid, partial, paid, void, Payment, PaymentStatus, Db, received, returned,
  received_term, returned_term, status_for, set_status, reconcile_found, reconcile_bill, counts_for,
  is_pending, is_approved,
}

abbrev pub is_void : BillStatus → Bool
is_void void = true
is_void _ = false

-- The status that sums call for: paid when they reach the amount, partial when they fall short of it but
-- something is left of them, unpaid when nothing is. A void bill may have any.
abbrev pub fits : BillStatus → ℕ → ℕ → ℕ → Bool
fits paid amount received returned = leb (amount + returned) received
fits partial amount received returned = ltb received (amount + returned) && ltb returned received
fits unpaid amount received returned = ltb received (amount + returned) && leb received returned
fits void amount received returned = true

fits-status_for : (amount r s : ℕ) → fits (status_for amount r s) amount r s ≡ true
unfolding status_for
fits-status_for amount r s = elim (Bool-cases (leb (amount + s) r)) [
  | inl full ↦ rw full full
  | inr short ↦ rw short (elim (Bool-cases (ltb s r)) [
    | inl some_left ↦ rw some_left (ground arith)
    | inr none_left ↦ rw none_left (ground arith)
  ])
]

-- A bill has the status that its approved payments call for.
abbrev pub agrees : List Payment → Bill → Bool
agrees payments b = fits b.status b.amount_minor (received b.id payments) (returned b.id payments)

-- Bills under one id have one amount, as under a PRIMARY KEY.
abbrev pub has_amount : (Key → ℕ) → Bill → Bool
has_amount amount b = b.amount_minor == amount b.id

module _ (amount : Key → ℕ) (id : Key) (payments : List Payment) where
  abbrev set_for : ℕ → Bill → Bill
  set_for n = set_status (status_for n (received id payments) (returned id payments))

  set_for-agrees :
      (n : ℕ) (b : Bill)
      → n ≡ amount id
      → has_amount amount b ≡ true
      → (b.id == id) ≡ true
      → agrees payments (set_for n b) ≡ true
  set_for-agrees n b hn hb k =
      let found : b.id ≡ id = ground arith in
      let cost : b.amount_minor ≡ n = ground (arith, ap amount found) in
      let status = status_for n (received id payments) (returned id payments) in
      ap (λ k. fits status b.amount_minor (received k payments) (returned k payments)) found
      ∙ ap (λ m. fits status m (received id payments) (returned id payments)) cost
      ∙ fits-status_for n (received id payments) (returned id payments)

  update-agrees :
      (n : ℕ) (bills : List Bill)
      → n ≡ amount id
      → all (has_amount amount) bills ≡ true
      → all (λ b. b.id == id || agrees payments b) bills ≡ true
      → all (agrees payments) (update (λ b. b.id == id) (set_for n) bills) ≡ true
  update-agrees n [] hn ha h = refl
  update-agrees n (b ∷ bs) hn ha h = ground (arith, set_for-agrees n b hn, update-agrees n bs hn)

  update-elsewhere :
      (bills : List Bill)
      → any (λ b. b.id == id) bills ≡ false
      → all (λ b. b.id == id || agrees payments b) bills ≡ true
      → all (agrees payments) bills ≡ true
  update-elsewhere [] hn h = refl
  update-elsewhere (b ∷ bs) hn h = ground (arith, update-elsewhere bs)

first-amount :
    (amount : Key → ℕ) (id : Key) (bills : List Bill) (b : Bill)
    → all (has_amount amount) bills ≡ true
    → first (λ c. c.id == id) bills ≡ some b
    → b.amount_minor ≡ amount id
first-amount amount id [] b ha h = grind arith
first-amount amount id (c ∷ cs) b ha h = elim (Bool-cases (c.id == id)) [
  | inl here ↦
      let same : c.id ≡ id = ground arith in
      let it : some c ≡ some b = ground arith in grind (arith, ap amount same)
  | inr there ↦ first-amount amount id cs b (ground arith) (ground arith)
]

any-first-none : {A : Type 0} (p : A → Bool) (xs : List A) → first p xs ≡ none → any p xs ≡ false
any-first-none p [] h = refl
any-first-none p (x ∷ xs) h = ground (arith, any-first-none p xs)

-- `reconcileBill` brings the one bill into agreement that is out of it.
pub reconcile_bill-agrees :
    (amount : Key → ℕ) (id : Key) (db : Db)
    → all (has_amount amount) db.bills ≡ true
    → all (λ b. b.id == id || agrees db.payments b) db.bills ≡ true
    → all (agrees (reconcile_bill id db).payments) (reconcile_bill id db).bills ≡ true
unfolding reconcile_bill
reconcile_bill-agrees amount id db ha h = elim (Option-cases (first (λ b. b.id == id) db.bills)) [
  | inl gone ↦
      rw gone (update-elsewhere amount id db.payments db.bills (any-first-none _ db.bills gone) h)
  | inr (b, found) ↦ rw found (
      update-agrees amount id db.payments b.amount_minor db.bills
        (first-amount amount id db.bills b ha found) ha h)
]

status_for-void : (amount r s : ℕ) → is_void (status_for amount r s) ≡ false
unfolding status_for
status_for-void amount r s = ground arith

unvoided :
    (id : Key) (status : BillStatus) (bills : List Bill)
    → is_void status ≡ false
    → any (λ b. b.id == id && is_void b.status) (update (λ c. c.id == id) (set_status status) bills)
      ≡ false
unvoided id status [] h = refl
unvoided id status (b ∷ bs) h = ground (arith, unvoided id status bs h)

none-voided :
    (id : Key) (bills : List Bill)
    → any (λ b. b.id == id) bills ≡ false
    → any (λ b. b.id == id && is_void b.status) bills ≡ false
none-voided id [] h = refl
none-voided id (b ∷ bs) h = ground (arith, none-voided id bs)

-- After `reconcileBill` the bill it was called on is not void, also when it was void before.
pub void-reconcile_bill :
    (id : Key) (db : Db)
    → any (λ b. b.id == id && is_void b.status) (reconcile_bill id db).bills ≡ false
unfolding reconcile_bill
void-reconcile_bill id db = elim (Option-cases (first (λ b. b.id == id) db.bills)) [
  | inl gone ↦ rw gone (none-voided id db.bills (any-first-none (λ b. b.id == id) db.bills gone))
  | inr (b, found) ↦ rw found (
      unvoided id _ db.bills
        (status_for-void b.amount_minor (received id db.payments) (returned id db.payments)))
]
