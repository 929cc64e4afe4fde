-- ===== src/Tenure/Transfer.antt =====
-- `completePropertyTransfer` of src/index.ts: an approved transfer hands a property from one owner to
-- another. The batch is one transaction, which the unique index on active owners lets through or fails;
-- `actor` is null when the server completes a scheduled transfer.
pub mod Owners
use estatemate_minmoe.Prelude.{
  ℕ, Bool, true, false, ◌&&◌, ◌||◌, Option, none, some, List, [], ◌∷◌, ◌++◌, ◌==◌, if◌then◌else◌,
  first, update, any, oldest,
}
use estatemate_minmoe.Prelude.Text.{Text, lit}
use estatemate_minmoe.Hardware.{Key}
use estatemate_minmoe.Tenure.{Ownership, OwnershipStatus, is_owned, owns, owned_property}

pub data TransferStatus : Type 0 where
  pending scheduled completed rejected cancelled failed : TransferStatus

-- The columns of `property_transfer_requests` that the code uses.
pub record Transfer : Type 0 where
  pub id : Key
  pub property_id : Key
  pub from_owner_id : Key
  pub to_owner_id : Key
  pub effective_date : ℕ
  pub status : TransferStatus
  pub completed_at : Option ℕ
  pub failure_reason : Option Text

abbrev pub is_open : Transfer → Bool
is_open t = elim t.status [
  | TransferStatus.pending ↦ true
  | TransferStatus.scheduled ↦ true
  | _ ↦ false
]

pub data AccountStatus : Type 0 where
  active inactive : AccountStatus

-- The columns of `users` that the changes of properties read or write.
pub record Account : Type 0 where
  pub id : Key
  pub property_id : Option Key
  pub status : AccountStatus
  pub account_expires_at : Option ℕ

pub record Db : Type 0 where
  pub transfers : List Transfer
  pub ownerships : List Ownership
  pub accounts : List Account

pub data Outcome : Type 0 where
  done not_open ownership_changed owner_exists : Outcome

abbrev pub revoke : Option Key → ℕ → Ownership → Ownership
revoke actor now o = record o {
  status = OwnershipStatus.revoked;
  revoked_by = actor;
  revoked_at = some now;
  revocation_reason = some (lit "approved ownership transfer");
}

abbrev pub granted : Key → Option Key → ℕ → Transfer → Ownership
granted id actor now t = record {
  id = id;
  property_id = t.property_id;
  resident_id = t.to_owner_id;
  status = OwnershipStatus.active;
  approved_by = actor;
  approved_at = now;
  revoked_by = none;
  revoked_at = none;
  revocation_reason = none;
}

abbrev coalesce : Option Key → Key → Option Key
coalesce none k = some k
coalesce (some j) k = some j

-- `property_id=COALESCE(property_id,?)` for the new owner, and the oldest property left for the old one
abbrev settle_accounts : List Ownership → Transfer → List Account → List Account
settle_accounts ownerships t accounts =
    update (λ a. a.id == t.from_owner_id)
      (λ a. record a {
        property_id =
            owned_property
              (oldest (λ o. o.resident_id == t.from_owner_id && is_owned o) Ownership.approved_at
                ownerships)
              none;
      })
      (update (λ a. a.id == t.to_owner_id)
        (λ a. record a { property_id = coalesce a.property_id t.property_id }) accounts)

-- The ownerships after the first two statements of the batch.
abbrev pub hand_over : Key → Option Key → ℕ → Transfer → Key → List Ownership → List Ownership
hand_over id actor now t ownership ownerships =
    update (λ o. o.id == ownership) (revoke actor now) ownerships ++ granted id actor now t ∷ []

-- `idx_property_one_active_owner` when the new ownership is inserted
abbrev pub is_taken : Option Key → ℕ → Transfer → Key → List Ownership → Bool
is_taken actor now t ownership ownerships =
    any (λ o. o.property_id == t.property_id && is_owned o)
      (update (λ o. o.id == ownership) (revoke actor now) ownerships)

abbrev pub complete_owned : Key → Option Key → ℕ → Transfer → Option Ownership → Db → Db × Outcome
complete_owned id actor now t none db = (
  record db {
    transfers =
        update (λ r. r.id == t.id)
          (λ r. record r {
            status = TransferStatus.failed;
            failure_reason = some (lit "Current ownership changed before transfer");
          })
          db.transfers;
  },
  ownership_changed,
)
complete_owned id actor now t (some o) db =
    if is_taken actor now t o.id db.ownerships then (db, owner_exists) else (
      record {
        transfers =
            update (λ r. r.id == t.id)
              (λ r. record r { status = TransferStatus.completed; completed_at = some now })
              db.transfers;
        ownerships = hand_over id actor now t o.id db.ownerships;
        accounts = settle_accounts (hand_over id actor now t o.id db.ownerships) t db.accounts;
      },
      done,
    )

abbrev pub complete_found : Key → Option Key → ℕ → Option Transfer → Db → Db × Outcome
complete_found id actor now none db = (db, not_open)
complete_found id actor now (some t) db =
    complete_owned id actor now t (first (owns t.from_owner_id t.property_id) db.ownerships) db

-- `completePropertyTransfer`; `id` is the id of the new ownership.
unfoldable pub complete_property_transfer : Key → Option Key → ℕ → Key → Db → Db × Outcome
complete_property_transfer id actor now transfer db =
    complete_found id actor now (first (λ t. t.id == transfer && is_open t) db.transfers) db
