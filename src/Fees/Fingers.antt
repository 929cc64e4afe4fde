-- ===== src/Fees/Fingers.antt =====
-- The loop of `enforceFacilityFees` of src/index.ts that restores fingers: where it ends, and what it
-- leaves when it throws.
use estatemate_minmoe.Prelude.{
  ℕ, Bool, true, false, not, ◌&&◌, List, [], ◌∷◌, ◌==◌, any, select, update, update_id, sweep,
  select-any, ◌≡◌, refl, ap, sym, ◌∙◌, ◌⊎◌, inl, inr, arith, Bool-cases, ==_refl,
}
use estatemate_minmoe.Hardware.{Key}
use estatemate_minmoe.Credentials.{Credential, Finger}
use estatemate_minmoe.Fees.{
  Db, Ledger, restored, restore_row, has_resident, is_blocked, restore_finger, restore_each,
}
use estatemate_minmoe.Fees.Table.{late, cleared}

module _ {A : Type 0} where
  abbrev head_or : List A → A → A
  head_or [] a = a
  head_or (x ∷ xs) a = x

  abbrev tail_of : List A → List A
  tail_of [] = []
  tail_of (x ∷ xs) = xs

  select-none : (p : A → Bool) (xs : List A) → select p xs ≡ [] → any p xs ≡ false
  select-none p [] e = refl
  select-none p (x ∷ xs) e = elim (Bool-cases (p x)) [
    | inl here ↦ grind (arith, rw here at e)
    | inr there ↦ rw there (select-none p xs (rw there at e))
  ]

module _ {D : Type 0} where
  -- Ids are a PRIMARY KEY.
  abbrev pub is_keyed : List (Credential D) → Bool
  is_keyed [] = true
  is_keyed (c ∷ cs) = not (any (λ d. d.id == c.id) cs) && is_keyed cs

  ids-update :
      (q : Credential D → Bool) (f : Credential D → Credential D) (k : Key)
      (cs : List (Credential D))
      → ((c : Credential D) → (f c).id ≡ c.id)
      → any (λ d. d.id == k) (update q f cs) ≡ any (λ d. d.id == k) cs
  ids-update q f k [] h = refl
  ids-update q f k (c ∷ cs) h = ground (arith, h c, ids-update q f k cs h)

  pub is_keyed-update :
      (q : Credential D → Bool) (f : Credential D → Credential D) (cs : List (Credential D))
      → ((c : Credential D) → (f c).id ≡ c.id)
      → is_keyed cs ≡ true
      → is_keyed (update q f cs) ≡ true
  is_keyed-update q f [] h k = refl
  is_keyed-update q f (c ∷ cs) h k =
      ground (arith, h c, ids-update q f c.id cs h, is_keyed-update q f cs h)

  pub is_keyed-sweep :
      (hits : Credential D → Credential D → Bool) (f : Credential D → Credential D)
      (ss cs : List (Credential D))
      → ((c : Credential D) → (f c).id ≡ c.id)
      → is_keyed cs ≡ true
      → is_keyed (sweep hits f ss cs) ≡ true
  is_keyed-sweep hits f [] cs h k = k
  is_keyed-sweep hits f (s ∷ ss) cs h k =
      is_keyed-sweep hits f ss (update (hits s) f cs) h (is_keyed-update (hits s) f cs h k)

module _ {D : Type 0} (p : Credential D → Bool)
    (gone : (c : Credential D) → p (restored c) ≡ false) where
  -- A row under none of the ids is not the first that the query finds.
  other_id :
      (k : Key) (cs : List (Credential D)) (a : Credential D) (rest : List (Credential D))
      → select p cs ≡ a ∷ rest
      → any (λ d. d.id == k) cs ≡ false
      → (k == a.id) ≡ false
  other_id k [] a rest e h = grind arith
  other_id k (c ∷ cs) a rest e h = elim (Bool-cases (p c)) [
    | inl here ↦
        let same : c ≡ a = ap (λ r. head_or r a) (rw here at e) in
        ground (arith, h, ap Credential.id same)
    | inr there ↦ other_id k cs a rest (rw there at e) (ground (arith, h))
  ]

  -- Restoring the first row that the query finds leaves the others to be found.
  select-restore_row :
      (cs : List (Credential D)) (a : Credential D) (rest : List (Credential D))
      → is_keyed cs ≡ true
      → select p cs ≡ a ∷ rest
      → select p (restore_row a.id cs) ≡ rest
  select-restore_row [] a rest u e = grind arith
  select-restore_row (c ∷ cs) a rest u e = elim (Bool-cases (p c)) [
    | inl here ↦
        let same : c ≡ a = ap (λ r. head_or r a) (rw here at e) in
        let alone : update (λ d. d.id == c.id) restored cs ≡ cs =
          update_id (λ d. d.id == c.id) restored cs (ground arith) in
        let found : select p (restore_row c.id (c ∷ cs)) ≡ rest =
          rw (==_refl c.id, gone c, alone) (ap tail_of (rw here at e)) in
        ap (λ d. select p (restore_row d.id (c ∷ cs))) (sym same) ∙ found
    | inr there ↦
        let ih = select-restore_row cs a rest (ground (arith, u)) (rw there at e) in
        let distinct = other_id c.id cs a rest (rw there at e) (ground (arith, u)) in
        rw (distinct, there) ih
  ]

  any-restore_row :
      (l : Credential D → Bool) (cs : List (Credential D)) (a : Credential D)
      (rest : List (Credential D))
      → ((c : Credential D) → p c ≡ true → l (restored c) ≡ false)
      → is_keyed cs ≡ true
      → select p cs ≡ a ∷ rest
      → any l cs ≡ false
      → any l (restore_row a.id cs) ≡ false
  any-restore_row l [] a rest k u e h = refl
  any-restore_row l (c ∷ cs) a rest k u e h = elim (Bool-cases (p c)) [
    | inl here ↦
        let same : c ≡ a = ap (λ r. head_or r a) (rw here at e) in
        let alone : update (λ d. d.id == c.id) restored cs ≡ cs =
          update_id (λ d. d.id == c.id) restored cs (ground arith) in
        let none_late : any l (restore_row c.id (c ∷ cs)) ≡ false =
          rw (==_refl c.id, k c here, alone) (ground (arith, h)) in
        ap (λ d. any l (restore_row d.id (c ∷ cs))) (sym same) ∙ none_late
    | inr there ↦
        let ih =
          any-restore_row l cs a rest k (ground (arith, u)) (rw there at e) (ground (arith, h)) in
        let distinct = other_id c.id cs a rest (rw there at e) (ground (arith, u)) in
        rw (distinct, ih) (ground (arith, h))
  ]

module _ (uuid : ℕ → Key) (now : ℕ) (ledger : Ledger) where
  abbrev pub is_due : Finger → Bool
  is_due = cleared now ledger (has_resident ledger)

  -- How the run ends: with no finger left to restore, or thrown at the first that is left, whose slot
  -- another live finger has.
  abbrev pub Ends : Db × Bool → Type 0
  Ends r =
      (r.1 ≡ false) × (any is_due r.0.fingers ≡ false)
      ⊎ (f : Finger) × (rest : List Finger) × (r.1 ≡ true)
        × (select is_due r.0.fingers ≡ f ∷ rest)
        × (is_blocked f r.0.fingers ≡ true)

  pub restore_each-Ends :
      (fs : List Finger) (db : Db)
      → is_keyed db.fingers ≡ true
      → any (late now ledger (has_resident ledger)) db.fingers ≡ false
      → select is_due db.fingers ≡ fs
      → (any (late now ledger (has_resident ledger)) (restore_each uuid now ledger fs db).0.fingers
          ≡ false)
        × Ends (restore_each uuid now ledger fs db)
  unfolding restore_each restore_finger
  restore_each-Ends [] db u h e = (h, inl (refl, select-none is_due db.fingers e))
  restore_each-Ends (f ∷ fs) db u h e = elim (Bool-cases (is_blocked f db.fingers)) [
    | inl blocked ↦ rw blocked (h, inr (f, fs, refl, e, blocked))
    | inr free ↦
        let next = restore_finger uuid now ledger db f in
        let gone : (c : Finger) → is_due (restored c) ≡ false = λ c. ground arith in
        let spared : (c : Finger)
            → is_due c ≡ true
            → late now ledger (has_resident ledger) (restored c) ≡ false =
          λ c w. ground arith in
        rw free (
          restore_each-Ends fs next
            (is_keyed-update (λ c. c.id == f.id) restored db.fingers (λ c. refl) u)
            (any-restore_row is_due gone (late now ledger (has_resident ledger)) db.fingers f fs
              spared u e h)
            (select-restore_row is_due gone db.fingers f fs u e))
  ]

  -- From where the run has ended, the loop does nothing more, and throws again where it threw.
  pub restore_each-again :
      (r : Db × Bool) → Ends r → restore_each uuid now ledger (select is_due r.0.fingers) r.0 ≡ r
  unfolding restore_each
  restore_each-again (db, threw) (inl (done, none_due)) =
      rw (select-any is_due db.fingers none_due) (ap (λ b. (db, b)) (sym done))
  restore_each-again (db, threw) (inr (f, rest, thrown, due, blocked)) =
      rw due (rw blocked (ap (λ b. (db, b)) (sym thrown)))

  pub cards-restore_each :
      (fs : List Finger) (db : Db) → (restore_each uuid now ledger fs db).0.cards ≡ db.cards
  unfolding restore_each restore_finger
  cards-restore_each [] db = refl
  cards-restore_each (f ∷ fs) db = elim (Bool-cases (is_blocked f db.fingers)) [
    | inl blocked ↦ rw blocked refl
    | inr free ↦ rw free (cards-restore_each fs (restore_finger uuid now ledger db f))
  ]
