-- ===== src/Tenure.antt =====
-- Who holds a property in src/index.ts: ownerships, tenancies and households, with `propertyRelationship`,
-- `isPrimaryResident` and `primaryResidentPropertyId`. Dates are days, times seconds, ids opaque keys.
pub mod Primary
pub mod Transfer
pub mod Household
pub mod Lifecycle
pub mod Tests
use estatemate_minmoe.Prelude.{
  ℕ, Bool, true, false, not, ◌&&◌, ◌||◌, Option, none, some, List, [], ◌∷◌, ◌==◌, leb, ltb,
  if◌then◌else◌, any, first, oldest,
}
use estatemate_minmoe.Prelude.Text.{Text}
use estatemate_minmoe.Hardware.{Key, holds_key}

pub data OwnershipStatus : Type 0 where
  active revoked : OwnershipStatus

-- A row of `property_ownerships`.
pub record Ownership : Type 0 where
  pub id : Key
  pub property_id : Key
  pub resident_id : Key
  pub status : OwnershipStatus
  pub approved_by : Option Key
  pub approved_at : ℕ
  pub revoked_by : Option Key
  pub revoked_at : Option ℕ
  pub revocation_reason : Option Text

pub data TenancyStatus : Type 0 where
  pending active rejected ended cancelled : TenancyStatus

-- The columns of `property_tenancies` that the queries read; `billed_to_tenant` is
-- `billing_responsibility='tenant'`.
pub record Tenancy : Type 0 where
  pub id : Key
  pub property_id : Key
  pub tenant_id : Key
  pub status : TenancyStatus
  pub start_date : ℕ
  pub end_date : Option ℕ
  pub billed_to_tenant : Bool
  pub can_manage_visitors : Bool
  pub can_manage_maintenance : Bool
  pub ended_at : Option ℕ

pub data MemberStatus : Type 0 where
  pending active rejected inactive : MemberStatus

-- The columns of `household_members` that the queries read.
pub record Member : Type 0 where
  pub id : Key
  pub property_id : Key
  pub primary_resident_id : Key
  pub linked_user_id : Option Key
  pub status : MemberStatus
  pub can_create_visitors : Bool
  pub can_view_bills : Bool
  pub created_at : ℕ
  pub deactivated_by : Option Key
  pub deactivated_at : Option ℕ

abbrev pub is_owned : Ownership → Bool
is_owned o = elim o.status [ OwnershipStatus.active ↦ true | OwnershipStatus.revoked ↦ false ]

abbrev pub is_let : Tenancy → Bool
is_let t = elim t.status [ TenancyStatus.active ↦ true | _ ↦ false ]

abbrev pub is_member : Member → Bool
is_member m = elim m.status [ MemberStatus.active ↦ true | _ ↦ false ]

pub record Holdings : Type 0 where
  pub ownerships : List Ownership
  pub tenancies : List Tenancy
  pub members : List Member

-- `end_date IS NULL OR date(end_date)>=date('now')`
abbrev pub has_not_ended : ℕ → Option ℕ → Bool
has_not_ended today none = true
has_not_ended today (some last) = leb today last

-- `status='active' AND date(start_date)<=date('now') AND (end_date IS NULL OR …)`
abbrev pub is_running : ℕ → Tenancy → Bool
is_running today t = is_let t && leb t.start_date today && has_not_ended today t.end_date

abbrev pub is_rented : ℕ → Key → Holdings → Bool
is_rented today property h = any (λ t. t.property_id == property && is_running today t) h.tenancies

abbrev pub owns : Key → Key → Ownership → Bool
owns user property o = o.property_id == property && o.resident_id == user && is_owned o

abbrev pub rents : ℕ → Key → Key → Tenancy → Bool
rents today user property t = t.property_id == property && t.tenant_id == user && is_running today t

abbrev pub belongs : Key → Key → Member → Bool
belongs user property m =
    m.property_id == property && holds_key m.linked_user_id user && is_member m

pub data Relation : Type 0 where
  owner tenant dependant : Relation

pub record Relationship : Type 0 where
  pub relationship : Relation
  pub can_create_visitors : Bool
  pub can_manage_maintenance : Bool
  pub can_view_bills : Bool

abbrev as_owner : Bool → Relationship
as_owner rented = record {
  relationship = owner;
  can_create_visitors = not rented;
  can_manage_maintenance = true;
  can_view_bills = true;
}

abbrev as_tenant : Tenancy → Relationship
as_tenant t = record {
  relationship = tenant;
  can_create_visitors = t.can_manage_visitors;
  can_manage_maintenance = t.can_manage_maintenance;
  can_view_bills = t.billed_to_tenant;
}

abbrev as_dependant : Member → Relationship
as_dependant m = record {
  relationship = dependant;
  can_create_visitors = m.can_create_visitors;
  can_manage_maintenance = true;
  can_view_bills = m.can_view_bills;
}

-- The three parts of the UNION ALL, in the order of their priority.
abbrev dependant_row : Option Member → Option Relationship
dependant_row none = none
dependant_row (some m) = some (as_dependant m)

abbrev tenant_row : Option Tenancy → Option Relationship → Option Relationship
tenant_row none rest = rest
tenant_row (some t) rest = some (as_tenant t)

abbrev owner_row : Option Ownership → Bool → Option Relationship → Option Relationship
owner_row none rented rest = rest
owner_row (some o) rented rest = some (as_owner rented)

-- `propertyRelationship`
unfoldable pub property_relationship : ℕ → Key → Key → Holdings → Option Relationship
property_relationship today user property h =
    owner_row (first (owns user property) h.ownerships) (is_rented today property h) (
      tenant_row (first (rents today user property) h.tenancies)
        (dependant_row (first (belongs user property) h.members)))

-- `isPrimaryResident`
unfoldable pub is_primary_resident : ℕ → Key → Key → Holdings → Bool
is_primary_resident today user property h =
    any (rents today user property) h.tenancies
    || any (owns user property) h.ownerships && not (is_rented today property h)

abbrev pub owned_property : Option Ownership → Option Key → Option Key
owned_property none rest = rest
owned_property (some o) rest = some o.property_id

abbrev pub rented_property : Option Tenancy → Option Key → Option Key
rented_property none rest = rest
rented_property (some t) rest = some t.property_id

abbrev pub shared_property : Option Member → Option Key
shared_property none = none
shared_property (some m) = some m.property_id

-- `primaryResidentPropertyId`
unfoldable pub primary_resident_property_id : ℕ → Key → Holdings → Option Key
primary_resident_property_id today user h =
    owned_property
      (oldest (λ o. o.resident_id == user && is_owned o) Ownership.approved_at h.ownerships)
      (rented_property
        (oldest (λ t. t.tenant_id == user && is_running today t) Tenancy.start_date h.tenancies)
        none)
