-- ===== src/Agent/Exclusive.antt =====
-- That work claimed in src/index.ts is not handed out a second time.
use estatemate_minmoe.Prelude.{
  ℕ, ◌≤◌, Bool, true, false, Option, List, [], ◌∷◌, leb, update, count, all, ◌≡◌, refl, inl, inr,
  arith, Bool-cases, count-update_zero,
}
use estatemate_minmoe.Hardware.{Key}
use estatemate_minmoe.Agent.{
  Operation, Db, Offer, device_table, visitor_table, table_of, is_claimed_by, claimed, claim_one,
  claim_all, claim_operations, offered,
}

count-update_le {ℓ} :
    {A : Type ℓ} (p q : A → Bool) (f : A → A) (xs : List A)
    → ((x : A) → p (f x) ≡ false)
    → count p (update q f xs) ≤ count p xs
count-update_le p q f [] h = omega arith
count-update_le p q f (x ∷ xs) h = ground (arith, h x, count-update_le p q f xs h)

claimed_busy :
    (now : ℕ) (agent : Key) (offer o : Operation)
    → is_claimed_by now offer (claimed now agent o) ≡ false
claimed_busy now agent offer o = ground arith

-- The rows of a table that an UPDATE for the offer could change at `now`.
abbrev pub claimable : ℕ → Offer → Db → ℕ
claimable now offer db = count (is_claimed_by now offer.1) (table_of offer.0 db)

module _ (now : ℕ) (agent : Key) where
  claim_one_clears :
      (offer : Offer) (db : Db) → claimable now offer (claim_one now agent offer db) ≡ 0
  unfolding claim_one
  claim_one_clears (device_table, o) db =
      count-update_zero (is_claimed_by now o) (claimed now agent) db.device_operations
        (λ x h. claimed_busy now agent o x)
  claim_one_clears (visitor_table, o) db =
      count-update_zero (is_claimed_by now o) (claimed now agent) db.visitor_operations
        (λ x h. claimed_busy now agent o x)

  claim_one_le :
      (offer other : Offer) (db : Db)
      → claimable now other (claim_one now agent offer db) ≤ claimable now other db
  unfolding claim_one
  claim_one_le (device_table, o) (device_table, p) db =
      count-update_le (is_claimed_by now p) (is_claimed_by now o) (claimed now agent)
        db.device_operations (claimed_busy now agent p)
  claim_one_le (device_table, o) (visitor_table, p) db = omega arith
  claim_one_le (visitor_table, o) (device_table, p) db = omega arith
  claim_one_le (visitor_table, o) (visitor_table, p) db =
      count-update_le (is_claimed_by now p) (is_claimed_by now o) (claimed now agent)
        db.visitor_operations (claimed_busy now agent p)

  claim_all_le :
      (offers : List Offer) (other : Offer) (db : Db)
      → claimable now other (claim_all now agent offers db).1 ≤ claimable now other db
  unfolding claim_all
  claim_all_le [] other db = omega arith
  claim_all_le (o ∷ os) other db =
      let here = claim_one_le o other db in
      let later = claim_all_le os other (claim_one now agent o db) in
      elim (Bool-cases (leb 1 (claimable now o db))) [
        | inl taken ↦ rw taken (omega (arith, here, later))
        | inr missed ↦ rw missed (omega (arith, here, later))
      ]

  taken_lem :
      (offers : List Offer) (db : Db)
      → all
          (λ o. leb (claimable now o (claim_all now agent offers db).1) 0)
          (claim_all now agent offers db).0
        ≡ true
  unfolding claim_all
  taken_lem [] db = refl
  taken_lem (o ∷ os) db =
      let gone = claim_one_clears o db in
      let later = claim_all_le os o (claim_one now agent o db) in
      let rest = taken_lem os (claim_one now agent o db) in
      elim (Bool-cases (leb 1 (claimable now o db))) [
        | inl taken ↦ rw taken (ground (arith, gone, later, rest))
        | inr missed ↦ rw missed rest
      ]

-- Claimed work is not handed out again at once: of every operation in the answer to a claim, no row is left
-- that another claim of the same second, by any agent, could take.
pub taken-claim_operations :
    (now : ℕ) (agent : Key) (limit : Option ℕ) (db : Db)
    → all
        (λ o. leb (claimable now o (claim_operations now agent limit db).1) 0)
        (claim_operations now agent limit db).0
      ≡ true
unfolding claim_operations
taken-claim_operations now agent limit db = taken_lem now agent (offered now agent limit db) db
