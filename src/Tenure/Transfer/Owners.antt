-- ===== src/Tenure/Transfer/Owners.antt =====
-- What `completePropertyTransfer` of src/index.ts does to the owners of the properties.
use estatemate_minmoe.Prelude.{
  ℕ, ◌≤◌, Bool, true, false, not, ◌&&◌, ◌||◌, Option, none, some, List, [], ◌∷◌, ◌++◌, ◌==◌,
  if◌then◌else◌, any, all, first, count, update, ◌≡◌, refl, sym, ap, ◌∙◌, arith, inl, inr,
  Bool-cases, Option-cases, first-with, keyed-only, count_zero-any, is_some, ==_refl,
}
use estatemate_minmoe.Hardware.{Key, holds_key}
use estatemate_minmoe.Tenure.{Ownership, owns}
use estatemate_minmoe.Tenure.Primary.{owned_at, owner_in, owner_of}
use estatemate_minmoe.Tenure.Transfer.{
  Transfer, Outcome, Db, done, not_open, ownership_changed, is_open, revoke, granted, hand_over,
  is_taken, complete_owned, complete_found, complete_property_transfer,
}

-- The owners as a function of the property.
abbrev pub Owners : Type 0
Owners = Key → Option Key

-- What a transfer promises: the property passes from the one to the other, if the one still owns it.
abbrev pub agreed : Option Transfer → Owners → Owners
agreed none owners q = owners q
agreed (some t) owners q =
    if q == t.property_id && holds_key (owners t.property_id) t.from_owner_id
    then some t.to_owner_id
    else owners q

abbrev pub answer_for : Option Transfer → Owners → Outcome
answer_for none owners = not_open
answer_for (some t) owners =
    if holds_key (owners t.property_id) t.from_owner_id then done else ownership_changed

module _ {A : Type 0} where
  first-append :
      (p : A → Bool) (xs ys : List A) → any p xs ≡ false → first p (xs ++ ys) ≡ first p ys
  first-append p [] ys h = refl
  first-append p (x ∷ xs) ys h = ground (arith, first-append p xs ys)

  first-append-none :
      (p : A → Bool) (xs ys : List A) → first p ys ≡ none → first p (xs ++ ys) ≡ first p xs
  first-append-none p [] ys h = h
  first-append-none p (x ∷ xs) ys h = ground (arith, first-append-none p xs ys)

  any-weaken :
      (p q : A → Bool) (xs : List A)
      → ((x : A) → p x ≡ true → q x ≡ true)
      → any p xs ≡ true
      → any q xs ≡ true
  any-weaken p q [] k h = h
  any-weaken p q (x ∷ xs) k h = ground (arith, k x, any-weaken p q xs k)

  -- Changed rows that the test finds neither before nor after.
  first-update-skip :
      (p q found : A → Bool) (f : A → A) (xs : List A)
      → ((x : A) → found x ≡ true → p x ≡ false)
      → ((x : A) → found x ≡ true → p (f x) ≡ false)
      → all (λ x. not (q x) || found x) xs ≡ true
      → first p (update q f xs) ≡ first p xs
  first-update-skip p q found f [] k l h = refl
  first-update-skip p q found f (x ∷ xs) k l h =
      ground (arith, k x, l x, first-update-skip p q found f xs k l)

  -- Rows that pass the test are all changed so that they fail it.
  any-update-all :
      (p q found : A → Bool) (f : A → A) (xs : List A)
      → ((x : A) → found x ≡ true → q x ≡ true)
      → ((x : A) → p (f x) ≡ false)
      → all (λ x. not (p x) || found x) xs ≡ true
      → any p (update q f xs) ≡ false
  any-update-all p q found f [] k l h = refl
  any-update-all p q found f (x ∷ xs) k l h =
      ground (arith, k x, l x, any-update-all p q found f xs k l)

  first-both-none :
      (p r b : A → Bool) (xs : List A)
      → ((x : A) → b x ≡ (p x && r x))
      → any p xs ≡ false
      → first b xs ≡ none
  first-both-none p r b [] k h = refl
  first-both-none p r b (x ∷ xs) k h = ground (arith, k x, first-both-none p r b xs k)

  -- The first row under two tests, when one row at most passes the first of them.
  first-both :
      (p r b : A → Bool) (xs : List A)
      → ((x : A) → b x ≡ (p x && r x))
      → count p xs ≤ 1
      → first b xs ≡ (elim (first p xs) [ none ↦ none | some x ↦ if r x then some x else none ])
  first-both p r b [] k u = refl
  first-both p r b (x ∷ xs) k u = elim (Bool-cases (p x)) [
    | inl here ↦
        let rest = first-both-none p r b xs k (count_zero-any p xs (ground arith)) in
        ground (arith, k x)
    | inr there ↦ let rest = first-both p r b xs k (ground arith) in rw there (ground (arith, k x))
  ]

module _ (id : Key) (actor : Option Key) (now : ℕ) (t : Transfer) (os : List Ownership) where
  -- The rows under the key of an ownership are that ownership.
  module _ (o : Ownership) (found : first (owns t.from_owner_id t.property_id) os ≡ some o)
      (ids : (k : Key) → count (λ x. x.id == k) os ≤ 1)
      (single : (q : Key) → count (owned_at q) os ≤ 1) where
    abbrev here : Ownership → Bool
    here x = x.id == o.id && owned_at t.property_id x

    some_here : any (λ x. x.id == o.id && owned_at t.property_id x) os ≡ true
    some_here =
        any-weaken (λ x. owns t.from_owner_id t.property_id x && x.id == o.id) here os
          (λ x h. ground arith)
          (first-with (owns t.from_owner_id t.property_id) (λ x. x.id == o.id) os o found
            (==_refl o.id))

    abbrev left : List Ownership
    left = update (λ x. x.id == o.id) (revoke actor now) os

    taken : is_taken actor now t o.id os ≡ false
    taken =
        any-update-all (owned_at t.property_id) (λ x. x.id == o.id) here (revoke actor now) os
          (λ x h. ground arith) (λ x. ground arith)
          (keyed-only here (owned_at t.property_id) os (λ x h. ground arith) some_here
            (single t.property_id))

    handed :
        (q : Key)
        → owner_of q (hand_over id actor now t o.id os)
          ≡ (if q == t.property_id then some t.to_owner_id else owner_of q os)
    unfolding owner_of
    handed q = elim (Bool-cases (q == t.property_id)) [
      | inl same ↦
          let at : q ≡ t.property_id = ground arith in
          let gone : any (owned_at q) left ≡ false = ap (λ p. any (owned_at p) left) at ∙ taken in
          rw same (
            ap owner_in (first-append (owned_at q) left (granted id actor now t ∷ []) gone)
            ∙ ground arith)
      | inr other ↦
          let new : first (owned_at q) (granted id actor now t ∷ []) ≡ none = ground arith in
          rw other (
            ap owner_in (
              first-append-none (owned_at q) left (granted id actor now t ∷ []) new
              ∙ first-update-skip (owned_at q) (λ x. x.id == o.id) here (revoke actor now) os
                  (λ x h. ground arith) (λ x h. ground arith)
                  (keyed-only here (λ x. x.id == o.id) os (λ x h. ground arith) some_here
                    (ids o.id))))
    ]

-- The giver is found among the active ownerships exactly when the giver is the owner.
still_owner :
    (user property : Key) (os : List Ownership) (o : Option Ownership)
    → count (owned_at property) os ≤ 1
    → first (owns user property) os ≡ o
    → holds_key (owner_of property os) user ≡ is_some o
unfolding owner_of
still_owner user property os o u found =
    let both =
      first-both (owned_at property) (λ x. x.resident_id == user) (owns user property) os
        (λ x. ground arith) u in
    elim (Option-cases (first (owned_at property) os)) [
      | inl gone ↦ rw gone (rw (sym found) (rw both (rw gone refl)))
      | inr (x, there) ↦ rw there (rw (sym found) (rw both (rw there (ground arith))))
    ]

module _ (id : Key) (actor : Option Key) (now : ℕ) (db : Db)
    (ids : (k : Key) → count (λ x. x.id == k) db.ownerships ≤ 1)
    (single : (q : Key) → count (owned_at q) db.ownerships ≤ 1) where
  complete_owned-agreed :
      (t : Transfer) (o : Option Ownership)
      → first (owns t.from_owner_id t.property_id) db.ownerships ≡ o
      → ((q : Key)
          → owner_of q (complete_owned id actor now t o db).0.ownerships
            ≡ agreed (some t) (λ q. owner_of q db.ownerships) q)
        × ((complete_owned id actor now t o db).1
            ≡ answer_for (some t) (λ q. owner_of q db.ownerships))
  complete_owned-agreed t none found =
      let gone =
        still_owner t.from_owner_id t.property_id db.ownerships none (single t.property_id) found in
      (λ q. ground (arith, gone), ground (arith, gone))
  complete_owned-agreed t (some o) found =
      let here =
        still_owner t.from_owner_id t.property_id db.ownerships (some o) (single t.property_id)
          found in
      let free = taken id actor now t db.ownerships o found ids single in
      (
        λ q.
            rw free
              (handed id actor now t db.ownerships o found ids single q ∙ ground (arith, here)),
        ground (arith, here, free),
      )

  complete_found-agreed :
      (o : Option Transfer)
      → ((q : Key)
          → owner_of q (complete_found id actor now o db).0.ownerships
            ≡ agreed o (λ q. owner_of q db.ownerships) q)
        × ((complete_found id actor now o db).1 ≡ answer_for o (λ q. owner_of q db.ownerships))
  complete_found-agreed none = (λ q. refl, refl)
  complete_found-agreed (some t) =
      complete_owned-agreed t (first (owns t.from_owner_id t.property_id) db.ownerships) refl

-- Seen as a function from properties to owners, `completePropertyTransfer` does what the transfer says
-- and no more: an open transfer whose giver still owns the property makes the receiver its owner, any
-- other changes no owner, and the outcome says which it was. Ownerships under one id must be one, and a
-- property have at most one active owner.
pub owner_of-complete_property_transfer :
    (id : Key) (actor : Option Key) (now : ℕ) (transfer : Key) (db : Db)
    → ((k : Key) → count (λ x. x.id == k) db.ownerships ≤ 1)
    → ((q : Key) → count (owned_at q) db.ownerships ≤ 1)
    → ((q : Key)
        → owner_of q (complete_property_transfer id actor now transfer db).0.ownerships
          ≡ agreed
              (first (λ t. t.id == transfer && is_open t) db.transfers)
              (λ q. owner_of q db.ownerships)
              q)
      × ((complete_property_transfer id actor now transfer db).1
          ≡ answer_for
              (first (λ t. t.id == transfer && is_open t) db.transfers)
              (λ q. owner_of q db.ownerships))
unfolding complete_property_transfer
owner_of-complete_property_transfer id actor now transfer db ids single =
    complete_found-agreed id actor now db ids single
      (first (λ t. t.id == transfer && is_open t) db.transfers)
