-- ===== src/Prelude/Keys.antt =====
-- Tables whose rows carry a key: what an UPDATE does to a single row found by its key.
use Prim.Native.Nat.{◌+◌, ◌≤◌}
use mathlib.Core.Path.{◌≡◌, refl}
use mathlib.Core.Logic.{inl, inr}
use mathlib.Core.Bool.{Bool, true, false}
use mathlib.Core.Option.{none, some}
use mathlib.Core.List.{List, [], ◌∷◌}
use native.Mathlib.Omega.{arith}
use estatemate_minmoe.Prelude.Tests.{if◌then◌else◌, Bool-cases}
use estatemate_minmoe.Prelude.Lists.{any}
use estatemate_minmoe.Prelude.Rows.{first, update, count, update_id}

module _ {ℓ} {A : Type ℓ} where
  pub first-holds : (p : A → Bool) (xs : List A) (a : A) → first p xs ≡ some a → p a ≡ true
  first-holds p [] a h = grind arith
  first-holds p (x ∷ xs) a h = elim (Bool-cases (p x)) [
    | inl here ↦ grind arith
    | inr there ↦ first-holds p xs a (grind arith)
  ]

  pub first-any : (p : A → Bool) (xs : List A) (a : A) → first p xs ≡ some a → any p xs ≡ true
  first-any p [] a h = grind arith
  first-any p (x ∷ xs) a h = elim (Bool-cases (p x)) [
    | inl here ↦ rw here refl
    | inr there ↦ rw there (first-any p xs a (grind arith))
  ]

  pub first-update :
      (p : A → Bool) (f : A → A) (xs : List A)
      → ((x : A) → p (f x) ≡ p x)
      → first p (update p f xs) ≡ (elim (first p xs) [ none ↦ none | some x ↦ some (f x) ])
  first-update p f [] h = refl
  first-update p f (x ∷ xs) h = ground (arith, h x, first-update p f xs h)

  pub count_zero-any : (p : A → Bool) (xs : List A) → count p xs ≤ 0 → any p xs ≡ false
  count_zero-any p [] h = refl
  count_zero-any p (x ∷ xs) h = ground (arith, count_zero-any p xs)

  -- A narrower test finds fewer rows.
  pub any-narrow :
      (p q : A → Bool) (xs : List A)
      → ((x : A) → p x ≡ true → q x ≡ true)
      → any p xs ≡ true
      → 1 ≤ count q xs
  any-narrow p q [] k h = grind arith
  any-narrow p q (x ∷ xs) k h = ground (arith, k x, any-narrow p q xs k)

  pub count-narrow :
      (p q : A → Bool) (xs : List A) → ((x : A) → p x ≡ true → q x ≡ true) → count p xs ≤ count q xs
  count-narrow p q [] k = omega arith
  count-narrow p q (x ∷ xs) k = ground (arith, k x, count-narrow p q xs k)

  -- An UPDATE under a test that one row alone passes, when that row was found by a narrower test under
  -- which it was not counted, and is counted after the change exactly when `b`.
  pub count-update_found :
      (p q found : A → Bool) (f : A → A) (b : Bool) (xs : List A)
      → ((x : A) → found x ≡ true → q x ≡ true)
      → ((x : A) → found x ≡ true → p x ≡ false)
      → ((x : A) → found x ≡ true → p (f x) ≡ b)
      → count q xs ≤ 1
      → any found xs ≡ true
      → count p (update q f xs) ≡ count p xs + (if b then 1 else 0)
  count-update_found p q found f b [] k l m u h = grind arith
  count-update_found p q found f b (x ∷ xs) k l m u h = elim (Bool-cases (found x)) [
    | inl here ↦
        let alone : any q xs ≡ false = count_zero-any q xs (ground (arith, k x)) in
        ground (arith, k x here, l x here, m x here, update_id q f xs alone)
    | inr there ↦
        let rest : any found xs ≡ true = ground arith in
        ground (
          arith,
          any-narrow found q xs k rest,
          count-update_found p q found f b xs k l m (ground (arith, any-narrow found q xs k rest))
              rest,
        )
  ]

  -- No row passes `found` once every row under the wider test `q` has been changed so that it fails.
  pub first-update-none :
      (found q : A → Bool) (f : A → A) (xs : List A)
      → ((x : A) → found x ≡ true → q x ≡ true)
      → ((x : A) → found (f x) ≡ false)
      → first found (update q f xs) ≡ none
  first-update-none found q f [] k l = refl
  first-update-none found q f (x ∷ xs) k l =
      ground (arith, k x, l x, first-update-none found q f xs k l)
