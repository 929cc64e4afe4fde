-- ===== src/Visitor/Sweep.antt =====
-- `releaseExpiredVisitorDeviceAccounts` of src/index.ts, the sweep of every minute, and
-- `syncActiveVisitorPasses`, the hourly reconciliation. A failing database is not modelled, so the
-- `catch` around one pass is never taken.
pub mod Released
use estatemate_minmoe.Prelude.{
  ℕ, ◌+◌, Bool, true, false, not, ◌&&◌, ◌||◌, Option, none, some, List, [], ◌∷◌, leb, ltb,
  if◌then◌else◌, length, take, select, update, count,
}
use estatemate_minmoe.Prelude.Text.{Text, lit, eqt}
use estatemate_minmoe.Hardware.{Key, Device, is_enabled}
use estatemate_minmoe.Visitor.Tables.{
  Pass, PassStatus, Db, is_active, is_checked_in, is_revoked, is_provisioned,
}
use estatemate_minmoe.Visitor.Accounts.{
  queue_visitor_device_operations, queue_visitor_device_removals,
}

-- `ORDER BY valid_until`
unfoldable pub insert_by_end : Pass → List Pass → List Pass
insert_by_end p [] = p ∷ []
insert_by_end p (q ∷ qs) =
    let rest = insert_by_end p qs in
    if leb p.valid_until q.valid_until then p ∷ q ∷ qs else q ∷ rest

unfoldable pub order_by_end : List Pass → List Pass
unfolding insert_by_end
order_by_end [] = []
order_by_end (p ∷ ps) = insert_by_end p (order_by_end ps)

abbrev pub has_closed : ℕ → Pass → Bool
has_closed now p = leb p.valid_until now

abbrev pub is_due : ℕ → Pass → Bool
is_due now p = is_provisioned p.account_state && (has_closed now p || is_revoked p.status)

abbrev pub release_reason : ℕ → Pass → Text
release_reason now p =
    if has_closed now p then lit "visitor pass validity expired" else lit "visitor pass revoked"

abbrev pub expire : ℕ → List Pass → List Pass
expire now =
    update (λ p. is_active p.status && has_closed now p)
      (λ p. record p { status = PassStatus.expired })

abbrev pub due_passes : ℕ → List Pass → List Pass
due_passes now passes = take 200 (order_by_end (select (is_due now) passes))

pub record ReleaseReport : Type 0 where
  pub expired : ℕ
  pub passes : ℕ
  pub queued : ℕ

pub record SyncReport : Type 0 where
  pub passes : ℕ
  pub devices : ℕ
  pub queued : ℕ

-- `queued += …`
abbrev pub add_queued : ℕ → Db × ℕ → Db × ℕ
add_queued n r = (r.0, n + r.1)

module _ (uuid : ℕ → Key) (now : ℕ) where
  -- The loop over the due passes.
  unfoldable pub release_all : Db → List Pass → Db × ℕ
  release_all db [] = (db, 0)
  release_all db (p ∷ ps) =
      let here = queue_visitor_device_removals uuid now db p (release_reason now p) in
      add_queued here.1 (release_all here.0 ps)

  unfoldable pub release_expired_visitor_device_accounts : Db → Db × ReleaseReport
  release_expired_visitor_device_accounts db =
      let expired_db = record db { passes = expire now db.passes } in
      let due = due_passes now expired_db.passes in
      let (db', queued) = release_all expired_db due in
      (
        db',
        record {
          expired = count (λ p. is_active p.status && has_closed now p) db.passes;
          passes = length due;
          queued = queued;
        },
      )

-- What the query of the reconciliation reads, in the order of creation: the pass, the terminal that
-- its `gate_scope` limits it to, and the account as JSON.
pub record PassAccount : Type 0 where
  pub pass : Pass
  pub gate_device : Option Key
  pub payload : Text

abbrev pub is_current_pass : ℕ → PassAccount → Bool
is_current_pass now a =
    (is_active a.pass.status || is_checked_in a.pass.status) && ltb now a.pass.valid_until

module _ (uuid : ℕ → Key) (now : ℕ) where
  -- The loop over the current passes; a pass with no credential number is left out.
  unfoldable pub sync_all : Db → List PassAccount → Db × ℕ
  sync_all db [] = (db, 0)
  sync_all db (a ∷ rest) =
      let here = queue_visitor_device_operations uuid now db a.pass.id a.gate_device a.payload in
      let skipped = sync_all db rest in
      let synced = add_queued here.1 (sync_all here.0 rest) in
      elim a.pass.credential_number [
        | none ↦ skipped
        | some credential ↦ if eqt credential [] then skipped else synced
      ]

  unfoldable pub sync_active_visitor_passes : Db → List PassAccount → Db × SyncReport
  sync_active_visitor_passes db accounts =
      let passes = take 500 (select (is_current_pass now) accounts) in
      let (db', queued) = sync_all db passes in
      if leb (length passes) 0 then (db, record { passes = 0; devices = 0; queued = 0 }) else (
        db',
        record { passes = length passes; devices = count is_enabled db.devices; queued = queued },
      )
