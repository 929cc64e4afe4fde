-- ===== src/Tenure/Lifecycle.antt =====
-- `processPropertyLifecycle` of src/index.ts, which the server runs from time to time: tenancies that are
-- over end with their households, due transfers are completed, and accounts that have lapsed close.
pub mod Ended
use estatemate_minmoe.Prelude.{
  ℕ, ◌+◌, ◌/◌, Bool, true, false, ◌&&◌, ◌||◌, Option, none, some, List, [], ◌∷◌, ◌==◌, ltb, leb,
  if◌then◌else◌, any, select, update, for_each, take, oldest,
}
use estatemate_minmoe.Prelude.Text.{Text}
use estatemate_minmoe.Hardware.{Key, holds_key}
use estatemate_minmoe.Credentials.{Queue}
use estatemate_minmoe.Tenure.{
  Ownership, Tenancy, TenancyStatus, Member, is_owned, is_let, is_member, owned_property,
  rented_property, shared_property,
}
use estatemate_minmoe.Tenure.Household.{deactivate_primary_household}
use estatemate_minmoe.Tenure.Transfer.{
  Transfer, TransferStatus, Account, AccountStatus, complete_property_transfer,
}
use estatemate_minmoe.Tenure.Household
use estatemate_minmoe.Tenure.Transfer

pub record Db : Type 0 where
  pub tenancies : List Tenancy
  pub home : Household.Db
  pub holding : Transfer.Db

-- `status='active' AND end_date IS NOT NULL AND date(end_date)<date('now')`
abbrev pub has_ended : ℕ → Tenancy → Bool
has_ended today t = is_let t && elim t.end_date [ none ↦ false | some last ↦ ltb last today ]

abbrev pub ended : ℕ → Tenancy → Tenancy
ended now t = record t { status = TenancyStatus.ended; ended_at = some now }

-- `WHERE id=? AND status='active'`
abbrev pub end_row : ℕ → Key → List Tenancy → List Tenancy
end_row now id = update (λ t. t.id == id && is_let t) (ended now)

-- The property that a former tenant is left with: owned, rented, or shared.
abbrev next_property : List Ownership → List Tenancy → List Member → Key → Option Key
next_property ownerships tenancies members user =
    owned_property
      (oldest (λ o. o.resident_id == user && is_owned o) Ownership.approved_at ownerships)
      (rented_property (oldest (λ t. t.tenant_id == user && is_let t) Tenancy.start_date tenancies)
        (shared_property
          (oldest (λ m. holds_key m.linked_user_id user && is_member m) Member.created_at members)))

abbrev is_active_account : Account → Bool
is_active_account a = elim a.status [ AccountStatus.active ↦ true | AccountStatus.inactive ↦ false ]

-- `status='active' AND account_expires_at IS NOT NULL AND datetime(account_expires_at)<=datetime('now')`
abbrev pub has_lapsed : ℕ → Account → Bool
has_lapsed now a =
    is_active_account a && elim a.account_expires_at [ none ↦ false | some t ↦ leb t now ]

abbrev pub close_lapsed : ℕ → List Account → List Account
close_lapsed now = update (has_lapsed now) (λ a. record a { status = AccountStatus.inactive })

-- `status='scheduled' AND datetime(effective_date)<=datetime('now')`
abbrev pub is_due : ℕ → Transfer → Bool
is_due now t = elim t.status [ TransferStatus.scheduled ↦ leb t.effective_date now | _ ↦ false ]

-- `ORDER BY effective_date`
abbrev in_order : Transfer → List Transfer → List Transfer
in_order t [] = t ∷ []
in_order t (u ∷ us) =
    let later = in_order t us in
    if ltb u.effective_date t.effective_date then u ∷ later else t ∷ u ∷ us

abbrev pub by_date : List Transfer → List Transfer
by_date [] = []
by_date (t ∷ ts) = in_order t (by_date ts)

module _ (uuid : ℕ → Key) (now : ℕ) where
  unfoldable pub end_tenancy : Db → Tenancy → Db
  end_tenancy db t =
      let tenancies = end_row now t.id db.tenancies in
      let home = deactivate_primary_household uuid now none t.property_id t.tenant_id db.home in
      record {
        tenancies = tenancies;
        home = home;
        holding = record db.holding {
          accounts =
              update (λ a. a.id == t.tenant_id)
                (λ a. record a {
                  property_id =
                      next_property db.holding.ownerships tenancies home.members t.tenant_id;
                })
                db.holding.accounts;
        };
      }

  -- A transfer that fails is logged, and the next one is tried; an id is drawn for each.
  unfoldable pub complete_due : Db → Transfer → Db
  complete_due db t = record db {
    home = record db.home { queue = record db.home.queue { drawn = db.home.queue.drawn + 1 } };
    holding = (complete_property_transfer (uuid db.home.queue.drawn) none now t.id db.holding).0;
  }

  unfoldable pub end_tenancies : Db → Db
  end_tenancies db = for_each end_tenancy (select (has_ended (now / 86400)) db.tenancies) db

  unfoldable pub complete_transfers : Db → Db
  complete_transfers db =
      for_each complete_due (take 100 (by_date (select (is_due now) db.holding.transfers))) db

  -- `processPropertyLifecycle`; `now` is in seconds, and the day is the day of `now` in UTC.
  unfoldable pub process_property_lifecycle : Db → Db
  process_property_lifecycle db =
      let after = complete_transfers (end_tenancies db) in
      record after {
        holding = record after.holding { accounts = close_lapsed now after.holding.accounts };
      }
