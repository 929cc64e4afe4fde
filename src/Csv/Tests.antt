-- ===== src/Csv/Tests.antt =====
-- The theorems on src/csv.ts at concrete texts, and amounts that the reader accepts and refuses.
use estatemate_minmoe.Prelude.{◌<◌, ◌^◌, true, map, All, List, [], ◌∷◌, ◌≡◌, refl, arith}
use estatemate_minmoe.Prelude.Text.{Text, lit, eqt, trim, to_lower, is_space, is_digit, number_from}
use estatemate_minmoe.Csv.{
  invalid_amount, amount_not_positive, ok, thrown, parse_csv, csv_export, csv_line, csv_cell,
  needs_quotes, double_quotes, join, CsvTable, header_name, has_duplicates, squash,
}
use estatemate_minmoe.Csv.RoundTrip.{keys_of, values_of, parse_csv-csv_export}
use estatemate_minmoe.Csv.Money.{money_to_minor, money_to_minor_bounds}

-- A cell with a comma and a quote in it.
abbrev bill : List (List Text)
bill = (lit "12" ∷ lit "Water, \"north\" block" ∷ []) ∷ (lit "13" ∷ [] ∷ []) ∷ []

parse_csv-csv_export_example :
    (table : CsvTable) × (parse_csv (csv_export ((lit "id" ∷ lit "title" ∷ []) ∷ bill)) 5 true
      ≡ ok table)
    × (table.headers ≡ map header_name (lit "id" ∷ lit "title" ∷ []))
    × All (λ row. keys_of row ≡ map header_name (lit "id" ∷ lit "title" ∷ [])) table.rows
    × (map values_of table.rows ≡ bill)
unfolding eqt csv_export csv_line csv_cell needs_quotes double_quotes join header_name
    has_duplicates squash trim to_lower is_space
parse_csv-csv_export_example =
    parse_csv-csv_export 5 (lit "id" ∷ lit "title" ∷ []) bill refl (refl, (refl, tt)) refl refl
      (refl, (refl, tt)) (omega arith) (λ e. omega (arith, e))

amount : money_to_minor (lit "1,250.5") ≡ ok 125050
unfolding money_to_minor is_space is_digit number_from
amount = refl

no_amounts :
    (money_to_minor (lit "12.345") ≡ thrown (invalid_amount (lit "12.345")))
    × (money_to_minor (lit "12.") ≡ thrown (invalid_amount (lit "12.")))
    × (money_to_minor (lit "0.00") ≡ thrown (amount_not_positive (lit "0.00")))
unfolding money_to_minor is_space is_digit number_from
no_amounts = (refl, refl, refl)

money_to_minor_bounds_example : (0 < 125050) × (125050 < 2 ^ 53)
money_to_minor_bounds_example = money_to_minor_bounds (lit "1,250.5") 125050 amount
