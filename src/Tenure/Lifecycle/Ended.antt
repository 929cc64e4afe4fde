-- ===== src/Tenure/Lifecycle/Ended.antt =====
-- What a run of `processPropertyLifecycle` of src/index.ts leaves behind.
use estatemate_minmoe.Prelude.{
  ℕ, ◌/◌, false, ◌&&◌, ◌==◌, any, count, select, take, ◌≡◌, refl, ap, ◌∙◌, arith, for_each-kept,
  for_each-field, sweep-select, count-update_zero, ==_refl,
}
use estatemate_minmoe.Hardware.{Key}
use estatemate_minmoe.Tenure.{is_let}
use estatemate_minmoe.Tenure.Transfer.{AccountStatus}
use estatemate_minmoe.Tenure.Lifecycle.{
  Db, has_ended, ended, end_row, has_lapsed, is_due, by_date, end_tenancy, complete_due,
  end_tenancies, complete_transfers, process_property_lifecycle,
}

module _ (uuid : ℕ → Key) (now : ℕ) (db : Db) where
  tenancies-end_tenancies :
      any (has_ended (now / 86400)) (end_tenancies uuid now db).tenancies ≡ false
  unfolding end_tenancies end_tenancy
  tenancies-end_tenancies =
      ap (any (has_ended (now / 86400))) (
        for_each-field Db.tenancies (end_tenancy uuid now) (λ ts t. end_row now t.id ts)
          (select (has_ended (now / 86400)) db.tenancies) db (λ s t. refl))
      ∙ sweep-select (λ s t. t.id == s.id && is_let t) (ended now) (has_ended (now / 86400))
          db.tenancies (λ t h. ground (arith, ==_refl t.id)) (λ t. refl)

  tenancies-complete_transfers : (complete_transfers uuid now db).tenancies ≡ db.tenancies
  unfolding complete_transfers complete_due
  tenancies-complete_transfers =
      for_each-kept Db.tenancies (complete_due uuid now)
        (take 100 (by_date (select (is_due now) db.holding.transfers))) db (λ s t. refl)

-- After a run no tenancy is active whose last day is over, and no account is active whose time is up.
pub ended-process_property_lifecycle :
    (uuid : ℕ → Key) (now : ℕ) (db : Db)
    → (any (has_ended (now / 86400)) (process_property_lifecycle uuid now db).tenancies ≡ false)
      × (count (has_lapsed now) (process_property_lifecycle uuid now db).holding.accounts ≡ 0)
unfolding process_property_lifecycle
ended-process_property_lifecycle uuid now db = (
  ap (any (has_ended (now / 86400)))
        (tenancies-complete_transfers uuid now (end_tenancies uuid now db))
      ∙ tenancies-end_tenancies uuid now db,
  count-update_zero (has_lapsed now) (λ a. record a { status = AccountStatus.inactive })
      (complete_transfers uuid now (end_tenancies uuid now db)).holding.accounts (λ a h. refl),
)
