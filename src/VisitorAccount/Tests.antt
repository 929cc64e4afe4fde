-- ===== src/VisitorAccount/Tests.antt =====
-- The theorems on src/visitor-account.ts at concrete values.
use estatemate_minmoe.Prelude.{◌≤◌, some}
use estatemate_minmoe.Prelude.Text.{lit}
use estatemate_minmoe.VisitorAccount.{read_visit_times}
use estatemate_minmoe.VisitorAccount.Limits.{read_visit_times_bounds}

read_visit_times_bounds_example :
    (1 ≤ (read_visit_times (some (lit "12"))).value)
    × ((read_visit_times (some (lit "12"))).value ≤ 10)
read_visit_times_bounds_example = read_visit_times_bounds (some (lit "12"))
