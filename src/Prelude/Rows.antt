-- ===== src/Prelude/Rows.antt =====
-- Tables as lists of rows: SELECT, UPDATE, DELETE and COUNT under a Boolean WHERE clause.
use Prim.Native.Nat.{ℕ, suc, ◌+◌}
use mathlib.Core.Path.{◌≡◌, refl, ap}
use mathlib.Core.Bool.{Bool, true, false, ◌||◌}
use mathlib.Core.Option.{Option, none, some}
use mathlib.Core.List.{List, [], ◌∷◌, ◌++◌}
use native.Mathlib.Omega.{arith}
use estatemate_minmoe.Prelude.Tests.{if◌then◌else◌}
use estatemate_minmoe.Prelude.Lists.{length, any, all}

module _ {ℓ} {A : Type ℓ} where
  -- SELECT * … WHERE p
  abbrev pub select : (A → Bool) → List A → List A
  select p [] = []
  select p (x ∷ xs) = let rest = select p xs in if p x then x ∷ rest else rest

  -- UPDATE … SET f WHERE p
  abbrev pub update : (A → Bool) → (A → A) → List A → List A
  update p f [] = []
  update p f (x ∷ xs) = (if p x then f x else x) ∷ update p f xs

  -- SELECT COUNT(*) … WHERE p; also the number of rows that an UPDATE under `p` changes
  abbrev pub count : (A → Bool) → List A → ℕ
  count p [] = 0
  count p (x ∷ xs) = (if p x then 1 else 0) + count p xs

  -- SELECT … WHERE p LIMIT 1
  abbrev pub first : (A → Bool) → List A → Option A
  first p [] = none
  first p (x ∷ xs) = if p x then some x else first p xs

  -- `new Map(rows.map(…)).get(k)`: of the rows under one key the last one wins
  abbrev pub last_of : (A → Bool) → List A → Option A
  last_of p [] = none
  last_of p (x ∷ xs) = elim (last_of p xs) [ some y ↦ some y | none ↦ if p x then some x else none ]

module _ {ℓ} {A : Type ℓ} where
  pub length-update : (p : A → Bool) (f : A → A) (xs : List A) → length (update p f xs) ≡ length xs
  length-update p f [] = refl
  length-update p f (x ∷ xs) = ap suc (length-update p f xs)

  -- A test that no changed row passes any more fails on every row that passed it.
  pub count-update_zero :
      (p : A → Bool) (f : A → A) (xs : List A)
      → ((x : A) → p x ≡ true → p (f x) ≡ false)
      → count p (update p f xs) ≡ 0
  count-update_zero p f [] h = refl
  count-update_zero p f (x ∷ xs) h = ground (arith, h x, count-update_zero p f xs h)

  pub any-append : (p : A → Bool) (xs ys : List A) → any p (xs ++ ys) ≡ (any p xs || any p ys)
  any-append p [] ys = refl
  any-append p (x ∷ xs) ys = ground (arith, any-append p xs ys)

  pub count-append : (p : A → Bool) (xs ys : List A) → count p (xs ++ ys) ≡ count p xs + count p ys
  count-append p [] ys = omega arith
  count-append p (x ∷ xs) ys = omega (arith, count-append p xs ys)

  pub update_id : (p : A → Bool) (f : A → A) (xs : List A) → any p xs ≡ false → update p f xs ≡ xs
  update_id p f [] h = refl
  update_id p f (x ∷ xs) h = ground (arith, update_id p f xs)

  pub last_of-any : (p : A → Bool) (xs : List A) → any p xs ≡ false → last_of p xs ≡ none
  last_of-any p [] h = refl
  last_of-any p (x ∷ xs) h = ground (arith, last_of-any p xs)

  pub last_of-append :
      (p : A → Bool) (xs : List A) (x : A)
      → last_of p (xs ++ x ∷ []) ≡ (if p x then some x else last_of p xs)
  last_of-append p [] x = refl
  last_of-append p (y ∷ xs) x = ground (arith, last_of-append p xs x)

  pub last_of-update :
      (p q : A → Bool) (f : A → A) (xs : List A)
      → ((x : A) → p (f x) ≡ p x)
      → last_of p (update q f xs)
        ≡ (elim (last_of p xs) [ none ↦ none | some x ↦ some (if q x then f x else x) ])
  last_of-update p q f [] h = refl
  last_of-update p q f (x ∷ xs) h = ground (arith, h x, last_of-update p q f xs h)

  -- What holds of every row, and of every changed row, holds after the UPDATE.
  pub all-update :
      (q p : A → Bool) (f : A → A) (xs : List A)
      → ((x : A) → q x ≡ true → p x ≡ true → q (f x) ≡ true)
      → all q xs ≡ true
      → all q (update p f xs) ≡ true
  all-update q p f [] k h = refl
  all-update q p f (x ∷ xs) k h = ground (arith, k x, all-update q p f xs k)

  -- An UPDATE that changes nothing that the test reads.
  pub count-update_same :
      (p q : A → Bool) (f : A → A) (xs : List A)
      → ((x : A) → p (f x) ≡ p x)
      → count p (update q f xs) ≡ count p xs
  count-update_same p q f [] h = refl
  count-update_same p q f (x ∷ xs) h = ground (arith, h x, count-update_same p q f xs h)

  pub count_none : (p : A → Bool) (xs : List A) → any p xs ≡ false → count p xs ≡ 0
  count_none p [] h = refl
  count_none p (x ∷ xs) h = ground (arith, count_none p xs)
