-- ===== src/Tenure/Primary.antt =====
-- The primary resident of a property in src/index.ts: the tenant while it is let, else the owner.
use estatemate_minmoe.Prelude.{
  ℕ, ◌≤◌, Bool, true, false, not, ◌&&◌, ◌||◌, Option, none, some, List, [], ◌∷◌, ◌==◌, any, first,
  count, ◌≡◌, refl, ◌∙◌, arith, inl, inr, Bool-cases, count_zero-any,
}
use estatemate_minmoe.Hardware.{Key, holds_key}
use estatemate_minmoe.Tenure.{
  Ownership, Tenancy, Holdings, is_owned, is_running, is_rented, owns, rents, is_primary_resident,
}

module _ {ℓ} {A : Type ℓ} where
  abbrev found_with : (A → Bool) → Option A → Bool
  found_with q none = false
  found_with q (some a) = q a

  any-both : (p q : A → Bool) (xs : List A) → any p xs ≡ false → any (λ x. p x && q x) xs ≡ false
  any-both p q [] h = refl
  any-both p q (x ∷ xs) h = ground (arith, any-both p q xs)

  -- A row that passes a test which one row at most passes.
  any-first :
      (p q : A → Bool) (xs : List A)
      → count p xs ≤ 1
      → any (λ x. p x && q x) xs ≡ found_with q (first p xs)
  any-first p q [] u = refl
  any-first p q (x ∷ xs) u = elim (Bool-cases (p x)) [
    | inl here ↦
        let alone : any p xs ≡ false = count_zero-any p xs (ground arith) in
        ground (arith, any-both p q xs alone)
    | inr there ↦ ground (arith, any-first p q xs (ground arith))
  ]

  any-equal : (p q : A → Bool) (xs : List A) → ((x : A) → p x ≡ q x) → any p xs ≡ any q xs
  any-equal p q [] h = refl
  any-equal p q (x ∷ xs) h = ground (arith, h x, any-equal p q xs h)

  any-first-some : (p : A → Bool) (xs : List A) → any p xs ≡ found_with (λ x. true) (first p xs)
  any-first-some p [] = refl
  any-first-some p (x ∷ xs) = ground (arith, any-first-some p xs)

abbrev pub let_at : ℕ → Key → Tenancy → Bool
let_at today property t = t.property_id == property && is_running today t

abbrev pub owned_at : Key → Ownership → Bool
owned_at property o = o.property_id == property && is_owned o

abbrev pub owner_in : Option Ownership → Option Key
owner_in none = none
owner_in (some o) = some o.resident_id

abbrev resident_in : Option Tenancy → Option Key → Option Key
resident_in none rest = rest
resident_in (some t) rest = some t.tenant_id

-- The owner of a property.
unfoldable pub owner_of : Key → List Ownership → Option Key
owner_of property os = owner_in (first (owned_at property) os)

-- The one person who may act for a property: its tenant while a tenancy runs, else its owner.
unfoldable pub primary_of : ℕ → Key → Holdings → Option Key
primary_of today property h =
    resident_in (first (let_at today property) h.tenancies) (owner_of property h.ownerships)

module _ (today : ℕ) (user property : Key) where
  primary_cases :
      (t : Option Tenancy) (o : Option Ownership)
      → (found_with (λ t. t.tenant_id == user) t
          || found_with (λ o. o.resident_id == user) o && not (found_with (λ t. true) t))
        ≡ holds_key (resident_in t (owner_in o)) user
  primary_cases none none = refl
  primary_cases none (some o) = ground arith
  primary_cases (some t) none = ground arith
  primary_cases (some t) (some o) = ground arith

  -- Where a property has at most one running tenancy and at most one active owner, `isPrimaryResident`
  -- says yes to one person at most: the tenant while a tenancy runs, and otherwise the owner.
  pub is_primary_resident-primary_of :
      (h : Holdings)
      → count (let_at today property) h.tenancies ≤ 1
      → count (owned_at property) h.ownerships ≤ 1
      → is_primary_resident today user property h ≡ holds_key (primary_of today property h) user
  unfolding is_primary_resident primary_of owner_of
  is_primary_resident-primary_of h ut uo =
      let t : any (rents today user property) h.tenancies
          ≡ found_with (λ t. t.tenant_id == user) (first (let_at today property) h.tenancies) =
        any-equal (rents today user property) (λ t. let_at today property t && t.tenant_id == user)
          h.tenancies (λ t. ground arith)
        ∙ any-first (let_at today property) (λ t. t.tenant_id == user) h.tenancies ut in
      let o : any (owns user property) h.ownerships
          ≡ found_with (λ o. o.resident_id == user) (first (owned_at property) h.ownerships) =
        any-equal (owns user property) (λ o. owned_at property o && o.resident_id == user)
          h.ownerships (λ o. ground arith)
        ∙ any-first (owned_at property) (λ o. o.resident_id == user) h.ownerships uo in
      let r : is_rented today property h
          ≡ found_with (λ t. true) (first (let_at today property) h.tenancies) =
        any-first-some (let_at today property) h.tenancies in
      rw t (
        rw o (
          rw r (
            primary_cases (first (let_at today property) h.tenancies)
              (first (owned_at property) h.ownerships))))
