-- ===== src/Visitor/Accounts/Settled.antt =====
-- When `refreshVisitorDeviceAccountState` of src/index.ts records a pass as removed.
use estatemate_minmoe.Prelude.{
  ℕ, ◌≤◌, Bool, not, ◌&&◌, ◌||◌, Option, none, some, List, [], ◌∷◌, ◌==◌, leb, if◌then◌else◌, any,
  all, count, first, ◌≡◌, refl, arith, first-update,
}
use estatemate_minmoe.Hardware.{Key, is_applied}
use estatemate_minmoe.Visitor.Tables.{Operation, Db, AccountState, removal_queued, removed}
use estatemate_minmoe.Visitor.Accounts.{is_revocation_of, refresh_visitor_device_account_state}

-- `device_account_state` of a pass, as a query by its id reads it.
abbrev pub state_of : Key → Db → Option AccountState
state_of pass db = elim (first (λ p. p.id == pass) db.passes) [
  | none ↦ none
  | some p ↦ some p.account_state
]

-- Every revocation of the pass has been applied, and there is one.
abbrev pub is_withdrawn : Key → List Operation → Bool
is_withdrawn pass operations =
    any (is_revocation_of pass) operations
    && all (λ r. not (is_revocation_of pass r) || is_applied r.status) operations

module _ {ℓ} {A : Type ℓ} (p q : A → Bool) where
  count-and-le : (xs : List A) → count (λ x. p x && q x) xs ≤ count p xs
  count-and-le [] = omega arith
  count-and-le (x ∷ xs) = ground (arith, count-and-le xs)

  leb-count-and :
      (xs : List A) → leb (count p xs) (count (λ x. p x && q x) xs) ≡ all (λ x. not (p x) || q x) xs
  leb-count-and [] = refl
  leb-count-and (x ∷ xs) = ground (arith, leb-count-and xs, count-and-le xs)

module _ {ℓ} {A : Type ℓ} (p : A → Bool) where
  leb-count-any : (xs : List A) → leb 1 (count p xs) ≡ any p xs
  leb-count-any [] = refl
  leb-count-any (x ∷ xs) = ground (arith, leb-count-any xs)

-- A pass whose removal is queued becomes `removed` when every revocation queued for it has been
-- applied, and there is at least one; otherwise its state stays as it is.
pub state_of-refresh :
    (now : ℕ) (db : Db) (pass : Key)
    → state_of pass db ≡ some removal_queued
    → state_of pass (refresh_visitor_device_account_state now db pass)
      ≡ some (if is_withdrawn pass db.operations then removed else removal_queued)
unfolding refresh_visitor_device_account_state
state_of-refresh now db pass h =
    let settled =
      first-update (λ p. p.id == pass)
        (λ p. record p { account_state = removed; removed_at = some now }) db.passes (λ p. refl) in
    let all_done = leb-count-and (is_revocation_of pass) (λ r. is_applied r.status) db.operations in
    let queued = leb-count-any (is_revocation_of pass) db.operations in
    ground (arith, settled, all_done, queued)
