-- ===== src/Fees/Table.antt =====
-- What the loops of `enforceFacilityFees` of src/index.ts leave in one table of credentials, the cards
-- or the fingers.
use estatemate_minmoe.Prelude.{
  ℕ, Bool, true, false, not, ◌&&◌, List, ◌==◌, any, all, select, ◌≡◌, ap, ◌∙◌, arith, sweep,
  sweep-select, sweep-none, all-select-both, ==_refl,
}
use estatemate_minmoe.Hardware.{Key}
use estatemate_minmoe.Credentials.{Credential, is_active}
use estatemate_minmoe.Fees.{Ledger, is_overdue, is_late, is_cleared, lapsed, restored}

module _ {D : Type 0} where
  -- Credentials under one id are held by one resident, as under a PRIMARY KEY.
  abbrev pub is_held_by : (Key → Key) → Credential D → Bool
  is_held_by owner c = c.resident_id == owner c.id

  -- No row is left that one of the two queries of a table would find, when `known` says that the
  -- account of its holder is there.
  abbrev pub none_left : ℕ → Ledger → (Credential D → Bool) → List (Credential D) → Bool
  none_left now ledger known cs =
      not (any (λ c. known c && is_late now ledger c) cs)
      && not (any (λ c. known c && is_cleared now ledger c) cs)

module _ {D : Type 0} (now : ℕ) (ledger : Ledger) (known : Credential D → Bool) where
  abbrev pub expire_all : List (Credential D) → List (Credential D) → List (Credential D)
  expire_all = sweep (λ s c. c.id == s.id && is_active c.status) (lapsed now)

  abbrev pub restore_all : List (Credential D) → List (Credential D) → List (Credential D)
  restore_all = sweep (λ s c. c.id == s.id) restored

  abbrev pub late : Credential D → Bool
  late c = known c && is_late now ledger c

  abbrev pub cleared : Credential D → Bool
  cleared c = known c && is_cleared now ledger c

  -- What the two loops over a table make of it.
  abbrev pub expire_from : List (Credential D) → List (Credential D)
  expire_from cs = expire_all (select late cs) cs

  abbrev pub restore_from : List (Credential D) → List (Credential D)
  restore_from cs = restore_all (select cleared cs) cs

  pub expired_settled : (cs : List (Credential D)) → any late (expire_from cs) ≡ false
  expired_settled cs =
      sweep-select (λ s c. c.id == s.id && is_active c.status) (lapsed now) late cs
        (λ c h. ground (arith, ==_refl c.id)) (λ c. ground arith)

  kept_late :
      (owner : Key → Key) (s c : Credential D)
      → (is_held_by owner s && cleared s) ≡ true
      → is_held_by owner c ≡ true
      → (c.id == s.id) ≡ true
      → late (restored c) ≡ false
  kept_late owner s c g w k =
      let same : c.id ≡ s.id = ground arith in
      let held : c.resident_id ≡ s.resident_id = ground (arith, ap owner same) in
      let spared : is_overdue now ledger s.resident_id ≡ false = ground arith in
      let also : is_overdue now ledger c.resident_id ≡ false =
        ap (is_overdue now ledger) held ∙ spared in
      ground (arith, also)

  pub restored_settled :
      (owner : Key → Key) (cs : List (Credential D))
      → all (is_held_by owner) cs ≡ true
      → any late cs ≡ false
      → none_left now ledger known (restore_from cs) ≡ true
  restored_settled owner cs held h =
      let no_cleared : any cleared (restore_from cs) ≡ false =
        sweep-select (λ s c. c.id == s.id) restored cleared cs (λ c k. ==_refl c.id)
          (λ c. ground arith) in
      let no_late : any late (restore_from cs) ≡ false =
        sweep-none (λ s c. c.id == s.id) restored late (is_held_by owner)
          (λ c. is_held_by owner c && cleared c) (select cleared cs) cs (kept_late owner) (λ c w. w)
          (all-select-both (is_held_by owner) cleared cs held) held h in
      ground arith
