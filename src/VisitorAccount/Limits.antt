-- ===== src/VisitorAccount/Limits.antt =====
-- The limits that every value read by src/visitor-account.ts keeps.
use estatemate_minmoe.Prelude.{ℕ, ◌≤◌, Option, max, arith}
use estatemate_minmoe.Prelude.Text.{Text}
use estatemate_minmoe.VisitorAccount.{
  read_visit_times, read_validity_days, read_visitor_default_validity_days,
  read_visitor_max_validity_days,
}

-- Accepted or refused, the number of visits read is between 1 and 10.
pub read_visit_times_bounds :
    (value : Option Text)
    → (1 ≤ (read_visit_times value).value) × ((read_visit_times value).value ≤ 10)
unfolding read_visit_times
read_visit_times_bounds value = ground arith

validity_days_bounds :
    (value : Option Text) (fallback lo hi : ℕ)
    → lo ≤ hi
    → lo ≤ fallback
    → fallback ≤ hi
    → (lo ≤ read_validity_days value fallback lo hi)
      × (read_validity_days value fallback lo hi ≤ hi)
unfolding read_validity_days
validity_days_bounds value fallback lo hi h p q = ground arith

-- Whatever the settings hold, the default length of a pass is at least one day, the longest window
-- is at least that default, and neither is more than 30 days.
pub validity_settings_bounds :
    (default_setting max_setting : Option Text)
    → (1 ≤ read_visitor_default_validity_days default_setting)
      × (read_visitor_default_validity_days default_setting
          ≤ read_visitor_max_validity_days max_setting
              (read_visitor_default_validity_days default_setting))
      × (read_visitor_max_validity_days max_setting
            (read_visitor_default_validity_days default_setting)
          ≤ 30)
unfolding read_visitor_default_validity_days read_visitor_max_validity_days
validity_settings_bounds default_setting max_setting =
    let d = read_visitor_default_validity_days default_setting in
    let fits =
      validity_days_bounds default_setting 1 1 30 (omega arith) (omega arith) (omega arith) in
    let longest =
      validity_days_bounds max_setting (max 7 d) (max 1 d) 30 (omega (arith, fits))
        (omega (arith, fits)) (omega (arith, fits)) in
    (fits.0, omega (arith, longest, fits), longest.1)
