-- ===== src/Prelude/Sweeps.antt =====
-- Loops over the rows of a query: `for_each`, and what a loop of UPDATE statements leaves behind.
use mathlib.Core.Path.{◌≡◌, refl, ap, ◌∙◌}
use mathlib.Core.Bool.{Bool, true, false, not, ◌&&◌, ◌||◌}
use mathlib.Core.List.{List, [], ◌∷◌}
use native.Mathlib.Omega.{arith}
use estatemate_minmoe.Prelude.Lists.{any, all}
use estatemate_minmoe.Prelude.Rows.{select, update, all-update}

module _ {ℓ κ} {S : Type ℓ} {A : Type κ} where
  -- `for (const row of rows)`: one step after the other
  abbrev pub for_each : (S → A → S) → List A → S → S
  for_each step [] s = s
  for_each step (a ∷ rest) s = for_each step rest (step s a)

  -- What each step keeps, the loop keeps.
  pub for_each-kept {μ} :
      {T : Type μ} (get : S → T) (step : S → A → S) (rows : List A) (s : S)
      → ((s : S) (a : A) → get (step s a) ≡ get s)
      → get (for_each step rows s) ≡ get s
  for_each-kept get step [] s h = refl
  for_each-kept get step (a ∷ rest) s h = for_each-kept get step rest (step s a) h ∙ h s a

module _ {ℓ κ μ} {S : Type ℓ} {A : Type κ} (step : S → A → S) where
  -- What each step preserves on rows that pass a test, the loop over such rows preserves.
  pub for_each-still :
      (I : S → Type μ) (q : A → Bool) (rows : List A) (s : S)
      → ((s : S) (a : A) → q a ≡ true → I s → I (step s a))
      → all q rows ≡ true
      → I s
      → I (for_each step rows s)
  for_each-still I q [] s k h i = i
  for_each-still I q (a ∷ rest) s k h i =
      for_each-still I q rest (step s a) k (ground (arith, h)) (k s a (ground (arith, h)) i)

  pub for_each-always :
      (I : S → Type μ) (rows : List A) (s : S)
      → ((s : S) (a : A) → I s → I (step s a))
      → I s
      → I (for_each step rows s)
  for_each-always I [] s k i = i
  for_each-always I (a ∷ rest) s k i = for_each-always I rest (step s a) k (k s a i)

module _ {ℓ κ} {S : Type ℓ} {A : Type κ} (step : S → A → S) where
  -- What each step brings about for its row, and no step undoes, holds of all rows after the loop.
  pub for_each-covers :
      (done : A → S → Bool) (rows : List A) (s : S)
      → ((s : S) (a : A) → done a (step s a) ≡ true)
      → ((s : S) (a b : A) → done b s ≡ true → done b (step s a) ≡ true)
      → all (λ a. done a (for_each step rows s)) rows ≡ true
  for_each-covers done [] s k l = refl
  for_each-covers done (a ∷ rest) s k l =
      let here : done a (for_each step rest (step s a)) ≡ true =
        for_each-always step (λ s. done a s ≡ true) rest (step s a) (λ s b h. l s b a h) (k s a) in
      ground (arith, here, for_each-covers done rest (step s a) k l)

module _ {ℓ κ μ} {S : Type ℓ} {A : Type κ} {T : Type μ} where
  -- A field that each step changes without reading the others is changed by a loop of its own.
  pub for_each-field :
      (get : S → T) (step : S → A → S) (change : T → A → T) (rows : List A) (s : S)
      → ((s : S) (a : A) → get (step s a) ≡ change (get s) a)
      → get (for_each step rows s) ≡ for_each change rows (get s)
  for_each-field get step change [] s h = refl
  for_each-field get step change (a ∷ rest) s h =
      for_each-field get step change rest (step s a) h ∙ ap (for_each change rest) (h s a)

module _ {ℓ} {A : Type ℓ} where
  any-update :
      (p w q : A → Bool) (f : A → A) (xs : List A)
      → ((x : A) → w x ≡ true → q x ≡ true → p (f x) ≡ false)
      → all w xs ≡ true
      → any p xs ≡ false
      → any p (update q f xs) ≡ false
  any-update p w q f [] k hw h = refl
  any-update p w q f (x ∷ xs) k hw h = ground (arith, k x, any-update p w q f xs k)

  -- All rows that a query finds pass its test.
  pub all-select : (p : A → Bool) (xs : List A) → all p (select p xs) ≡ true
  all-select p [] = refl
  all-select p (x ∷ xs) = ground (arith, all-select p xs)

  pub all-select-both :
      (w p : A → Bool) (xs : List A) → all w xs ≡ true → all (λ x. w x && p x) (select p xs) ≡ true
  all-select-both w p [] h = refl
  all-select-both w p (x ∷ xs) h = ground (arith, all-select-both w p xs)

  pub select-any : (p : A → Bool) (xs : List A) → any p xs ≡ false → select p xs ≡ []
  select-any p [] h = refl
  select-any p (x ∷ xs) h = ground (arith, select-any p xs)

module _ {ℓ} {A : Type ℓ} (hits : A → A → Bool) (f : A → A) where
  -- A loop that runs `UPDATE … SET f WHERE hits row` for each row.
  abbrev pub sweep : List A → List A → List A
  sweep ss xs = for_each (λ rows s. update (hits s) f rows) ss xs

  -- Rows under a test that each are hit by a row of the loop, which changes them so that they fail it.
  sweep-reached :
      (p : A → Bool) (s : A) (ss xs : List A)
      → ((x : A) → p (f x) ≡ false)
      → all (λ x. not (p x) || any (λ t. hits t x) (s ∷ ss)) xs ≡ true
      → all (λ x. not (p x) || any (λ t. hits t x) ss) (update (hits s) f xs) ≡ true
  sweep-reached p s ss [] k h = refl
  sweep-reached p s ss (x ∷ xs) k h = ground (arith, k x, sweep-reached p s ss xs k)

  all-not-any :
      (p : A → Bool) (xs : List A) → all (λ x. not (p x) || false) xs ≡ true → any p xs ≡ false
  all-not-any p [] h = refl
  all-not-any p (x ∷ xs) h = ground (arith, all-not-any p xs)

  sweep-any :
      (p : A → Bool) (ss xs : List A)
      → ((x : A) → p (f x) ≡ false)
      → all (λ x. not (p x) || any (λ t. hits t x) ss) xs ≡ true
      → any p (sweep ss xs) ≡ false
  sweep-any p [] xs k h = all-not-any p xs h
  sweep-any p (s ∷ ss) xs k h =
      sweep-any p ss (update (hits s) f xs) k (sweep-reached p s ss xs k h)

  covers :
      (p : A → Bool) (xs zs : List A)
      → ((x : A) → p x ≡ true → hits x x ≡ true)
      → ((x : A) → any (λ t. hits t x) (select p xs) ≡ true → any (λ t. hits t x) zs ≡ true)
      → all (λ x. not (p x) || any (λ t. hits t x) zs) xs ≡ true
  covers p [] zs k m = refl
  covers p (x ∷ xs) zs k m =
      let rest = covers p xs zs k (λ y h. m y (ground arith)) in ground (arith, k x, m x, rest)

  -- The loop over the rows that a query found leaves no row that the query would find.
  pub sweep-select :
      (p : A → Bool) (xs : List A)
      → ((x : A) → p x ≡ true → hits x x ≡ true)
      → ((x : A) → p (f x) ≡ false)
      → any p (sweep (select p xs) xs) ≡ false
  sweep-select p xs k l = sweep-any p (select p xs) xs l (covers p xs (select p xs) k (λ x h. h))

  pub all-sweep :
      (w : A → Bool) (ss xs : List A)
      → ((x : A) → w x ≡ true → w (f x) ≡ true)
      → all w xs ≡ true
      → all w (sweep ss xs) ≡ true
  all-sweep w [] xs k h = h
  all-sweep w (s ∷ ss) xs k h =
      all-sweep w ss (update (hits s) f xs) k (all-update w (hits s) f xs (λ x a b. k x a) h)

  -- No row passes a test that a hit never brings about; `w` holds of all rows, `g` of those looped over.
  pub sweep-none :
      (p w g : A → Bool) (ss xs : List A)
      → ((s x : A) → g s ≡ true → w x ≡ true → hits s x ≡ true → p (f x) ≡ false)
      → ((x : A) → w x ≡ true → w (f x) ≡ true)
      → all g ss ≡ true
      → all w xs ≡ true
      → any p xs ≡ false
      → any p (sweep ss xs) ≡ false
  sweep-none p w g [] xs k l hg hw h = h
  sweep-none p w g (s ∷ ss) xs k l hg hw h =
      sweep-none p w g ss (update (hits s) f xs) k l (ground arith)
        (all-update w (hits s) f xs (λ x a b. l x a) hw)
        (any-update p w (hits s) f xs (λ x a b. k s x (ground arith) a b) hw h)
