-- ===== src/Prelude/Totals.antt =====
-- Sums over the rows of a table, and what they are after an INSERT or an UPDATE by key.
use Prim.Native.Nat.{ℕ, ◌+◌, ◌≤◌}
use mathlib.Core.Path.{◌≡◌, refl, ap, ◌∙◌}
use mathlib.Core.Logic.{inl, inr}
use mathlib.Core.Bool.{Bool, true, false, not, ◌&&◌, ◌||◌}
use mathlib.Core.Option.{some}
use mathlib.Core.List.{List, [], ◌∷◌, ◌++◌}
use native.Mathlib.Omega.{arith}
use estatemate_minmoe.Prelude.Tests.{◌==◌, Bool-cases}
use estatemate_minmoe.Prelude.Lists.{any, all}
use estatemate_minmoe.Prelude.Rows.{update, count, first, count-append, count_none}
use estatemate_minmoe.Prelude.Keys.{count_zero-any, any-narrow}

module _ {ℓ} {A : Type ℓ} where
  -- SELECT SUM(w)
  abbrev pub total : (A → ℕ) → List A → ℕ
  total w [] = 0
  total w (x ∷ xs) = w x + total w xs

  pub total-append : (w : A → ℕ) (xs ys : List A) → total w (xs ++ ys) ≡ total w xs + total w ys
  total-append w [] ys = omega arith
  total-append w (x ∷ xs) ys = omega (arith, total-append w xs ys)

  -- A row found by a key, and by what else holds of it, when no other row has that key.
  pub first-with :
      (p r : A → Bool) (xs : List A) (a : A)
      → first p xs ≡ some a
      → r a ≡ true
      → any (λ x. p x && r x) xs ≡ true
  first-with p r [] a h k = grind arith
  first-with p r (x ∷ xs) a h k = elim (Bool-cases (p x)) [
    | inl here ↦ grind arith
    | inr there ↦ rw there (first-with p r xs a (grind arith) k)
  ]

  none-only :
      (found q : A → Bool) (xs : List A)
      → any q xs ≡ false
      → all (λ x. not (q x) || found x) xs ≡ true
  none-only found q [] h = refl
  none-only found q (x ∷ xs) h = ground (arith, none-only found q xs)

  -- When one row passes `q` at most, and some row passes the narrower `found`, only it passes `q`.
  pub keyed-only :
      (found q : A → Bool) (xs : List A)
      → ((x : A) → found x ≡ true → q x ≡ true)
      → any found xs ≡ true
      → count q xs ≤ 1
      → all (λ x. not (q x) || found x) xs ≡ true
  keyed-only found q [] k h u = refl
  keyed-only found q (x ∷ xs) k h u = elim (Bool-cases (found x)) [
    | inl here ↦
        let alone : count q xs ≤ 0 = ground (arith, k x) in
        ground (arith, none-only found q xs (count_zero-any q xs alone))
    | inr there ↦
        let rest : any found xs ≡ true = ground arith in
        let few : count q xs ≤ 1 = ground arith in
        ground (arith, any-narrow found q xs k rest, keyed-only found q xs k rest few)
  ]

  pub total-update :
      (w : A → ℕ) (q found : A → Bool) (f : A → A) (xs : List A)
      → ((x : A) → found x ≡ true → w (f x) ≡ w x)
      → all (λ x. not (q x) || found x) xs ≡ true
      → total w (update q f xs) ≡ total w xs
  total-update w q found f [] k h = refl
  total-update w q found f (x ∷ xs) k h = ground (arith, k x, total-update w q found f xs k)

  -- A row under a fresh key takes the place of no other.
  pub fresh-keys :
      (key : A → ℕ) (row : A) (rows : List A)
      → any (λ x. key x == key row) rows ≡ false
      → ((k : ℕ) → count (λ x. key x == k) rows ≤ 1)
      → (k : ℕ) → count (λ x. key x == k) (rows ++ row ∷ []) ≤ 1
  fresh-keys key row rows fresh keys k = elim (Bool-cases (key row == k)) [
    | inl here ↦
        let same : k ≡ key row = ground arith in
        let gone : count (λ x. key x == k) rows ≡ 0 =
          ap (λ j. count (λ x. key x == j) rows) same
          ∙ count_none (λ x. key x == key row) rows fresh in
        ground (arith, count-append (λ x. key x == k) rows (row ∷ []))
    | inr there ↦ ground (arith, count-append (λ x. key x == k) rows (row ∷ []), keys k)
  ]
