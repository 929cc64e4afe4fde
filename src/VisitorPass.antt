-- ===== src/VisitorPass.antt =====
-- src/visitor-pass.ts: whether a pass may be accepted now. The window comes as the two instants that
-- `parseEstateInstantMs` gives, in milliseconds, and the reasons as data.
use estatemate_minmoe.Prelude.{
  ℕ, Bool, true, false, ◌&&◌, Option, none, some, leb, ltb, if◌then◌else◌, value_or,
}
use estatemate_minmoe.Visitor.Tables.{PassStatus}

pub record PassWindow : Type 0 where
  pub status : PassStatus
  pub starts_at_ms : Option ℕ
  pub ends_at_ms : Option ℕ
  pub visit_times : Option ℕ
  pub visits_used : Option ℕ

pub data Rejection : Type 0 where
  was_revoked already_checked_out has_expired awaiting_approval unreadable_window : Rejection
  not_active_yet expired_at all_visits_used : ℕ → Rejection

pub record Evaluation : Type 0 where
  pub reason : Option Rejection
  pub starts_at_ms : Option ℕ
  pub ends_at_ms : Option ℕ

-- `valid`, which is true exactly when there is no reason
abbrev pub is_valid : Evaluation → Bool
is_valid e = elim e.reason [ none ↦ true | some r ↦ false ]

-- The tests on the status.
unfoldable pub status_rejection : PassStatus → Option Rejection
status_rejection PassStatus.revoked = some was_revoked
status_rejection PassStatus.checked_out = some already_checked_out
status_rejection PassStatus.expired = some has_expired
status_rejection PassStatus.pending = some awaiting_approval
status_rejection PassStatus.active = none
status_rejection PassStatus.checked_in = none

-- The tests on a readable window and on the visits.
unfoldable pub window_rejection : ℕ → ℕ → ℕ → ℕ → ℕ → Option Rejection
window_rejection now starts ends times used =
    if ltb now starts
    then some (not_active_yet starts)
    else if ltb ends now
    then some (expired_at ends)
    else if leb 1 times && leb times used
    then some (all_visits_used times)
    else none

unfoldable pub instants_rejection : ℕ → Option ℕ → Option ℕ → ℕ → ℕ → Option Rejection
unfolding window_rejection
instants_rejection now none ends times used = some unreadable_window
instants_rejection now (some starts) none times used = some unreadable_window
instants_rejection now (some starts) (some ends) times used =
    window_rejection now starts ends times used

unfoldable pub evaluate_visitor_pass : PassWindow → ℕ → Evaluation
unfolding status_rejection instants_rejection
evaluate_visitor_pass pass now = record {
  reason = elim (status_rejection pass.status) [
    | some r ↦ some r
    | none ↦
        instants_rejection now pass.starts_at_ms pass.ends_at_ms (value_or pass.visit_times 0)
          (value_or pass.visits_used 0)
  ];
  starts_at_ms = pass.starts_at_ms;
  ends_at_ms = pass.ends_at_ms;
}
