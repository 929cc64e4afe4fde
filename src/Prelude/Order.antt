-- ===== src/Prelude/Order.antt =====
-- Queries that take the first row in the order of a key.
use Prim.Native.Nat.{ℕ}
use mathlib.Core.Bool.{Bool, true}
use mathlib.Core.Path.{◌≡◌, refl, ap}
use mathlib.Core.Logic.{inl, inr}
use native.Mathlib.Omega.{arith}
use mathlib.Core.Option.{Option, none, some}
use mathlib.Core.List.{List, [], ◌∷◌, ◌++◌}
use estatemate_minmoe.Prelude.Tests.{ltb, if◌then◌else◌, Bool-cases, value_or}

module _ {ℓ} {A : Type ℓ} where
  abbrev later_of : (A → ℕ) → A → Option A → A
  later_of key a none = a
  later_of key a (some b) = if ltb (key a) (key b) then b else a

  -- `WHERE p ORDER BY key DESC LIMIT 1`
  unfoldable pub newest : (A → Bool) → (A → ℕ) → List A → Option A
  newest p key [] = none
  newest p key (a ∷ rest) =
      let found = newest p key rest in if p a then some (later_of key a found) else found

  -- A row of the list that the query may answer with.
  abbrev pub Occurs : (A → Bool) → A → List A → Type ℓ
  Occurs p a xs = (front : List A) × (back : List A) × (xs ≡ front ++ a ∷ back) × (p a ≡ true)

  Occurs-later : (p : A → Bool) (a x : A) (xs : List A) → Occurs p a xs → Occurs p a (x ∷ xs)
  Occurs-later p a x xs (front, back, same, h) = (x ∷ front, back, ap (λ r. x ∷ r) same, h)

  Occurs-or :
      (p : A → Bool) (key : A → ℕ) (x : A) (xs : List A) (o : Option A)
      → p x ≡ true
      → ((b : A) → o ≡ some b → Occurs p b xs)
      → Occurs p (later_of key x o) (x ∷ xs)
  Occurs-or p key x xs none h k = ([], xs, refl, h)
  Occurs-or p key x xs (some b) h k = elim (Bool-cases (ltb (key x) (key b))) [
    | inl newer ↦ rw newer (Occurs-later p b x xs (k b refl))
    | inr older ↦ rw older ([], xs, refl, h)
  ]

  pub newest-Occurs :
      (p : A → Bool) (key : A → ℕ) (xs : List A) (a : A) → newest p key xs ≡ some a → Occurs p a xs
  unfolding newest
  newest-Occurs p key [] a e = grind arith
  newest-Occurs p key (x ∷ xs) a e = elim (Bool-cases (p x)) [
    | inr out ↦ Occurs-later p a x xs (newest-Occurs p key xs a (rw out at e))
    | inl here ↦
        let same : later_of key x (newest p key xs) ≡ a = ap (λ o. value_or o a) (rw here at e) in
        rw (← same) (Occurs-or p key x xs (newest p key xs) here (newest-Occurs p key xs))
  ]

  abbrev earlier_of : (A → ℕ) → A → Option A → A
  earlier_of key a none = a
  earlier_of key a (some b) = if ltb (key b) (key a) then b else a

  -- `WHERE p ORDER BY key LIMIT 1`
  unfoldable pub oldest : (A → Bool) → (A → ℕ) → List A → Option A
  oldest p key [] = none
  oldest p key (a ∷ rest) =
      let found = oldest p key rest in if p a then some (earlier_of key a found) else found
