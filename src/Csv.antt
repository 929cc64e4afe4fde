-- ===== src/Csv.antt =====
-- src/csv.ts: the CSV reader of the bulk imports, and `csvCell` of src/index.ts, which writes the
-- cells of the billing export.
mod Cells
pub mod RoundTrip
pub mod Tests
pub mod Money
use estatemate_minmoe.Prelude.{
  ℕ, ◌+◌, ◌-◌, Bool, true, false, not, ◌&&◌, ◌||◌, List, [], ◌∷◌, ◌++◌, map, leb, ltb, ◌==◌,
  if◌then◌else◌, length, any, drop, ◌≡◌, refl,
}
use estatemate_minmoe.Prelude.Text.{Text, lit, eqt, includes, is_space, trim, to_lower}

pub data CsvError : Type 0 where
  row_limit : ℕ → CsvError
  unterminated_quote empty empty_header duplicate_headers : CsvError
  missing_columns : List Text → CsvError
  invalid_amount amount_not_positive : Text → CsvError

-- What a function that may throw gives.
pub data Result {ℓ} (A : Type ℓ) : Type ℓ where
  thrown : CsvError → Result A
  ok : A → Result A

-- The rest of a function after a call that may throw.
infixl 5 ◌>>=◌
abbrev pub ◌>>=◌ {ℓ κ} : {A : Type ℓ} {B : Type κ} → Result A → (A → Result B) → Result B
thrown problem >>= rest = thrown problem
ok value >>= rest = rest value

-- The variables of the loop.
pub record Scan : Type 0 where
  pub matrix : List (List Text)
  pub row : List Text
  pub field : Text
  pub quoted : Bool

abbrev pub initial : Scan
initial = record { matrix = []; row = []; field = []; quoted = false }

pub record CsvTable : Type 0 where
  pub headers : List Text
  pub rows : List (List (Text × Text))

abbrev pub is_nonempty : Text → Bool
is_nonempty v = not (eqt v [])

-- `/^\uFEFF/`
pub strip_bom : Text → Text
strip_bom [] = []
strip_bom (c ∷ s) = if c == 0xfeff then s else c ∷ s

-- `options.trimValues === false` is `preserve`.
module _ (preserve : Bool) (max_rows : ℕ) where
  pub cell_value : Text → Text
  cell_value value = if preserve then value else trim value

  -- `row.push(cellValue(field))`
  abbrev pub closed_row : Scan → List Text
  closed_row s = s.row ++ cell_value s.field ∷ []

  -- `if (row.some((value) => value !== '')) matrix.push(row)`
  abbrev pub push_row : List (List Text) → List Text → List (List Text)
  push_row matrix row = if any is_nonempty row then matrix ++ row ∷ [] else matrix

  -- One character that is not the first of a doubled quote.
  pub step : Scan → ℕ → Result Scan
  step s c =
      if s.quoted
      then (if c == b'"'
          then ok (record s { quoted = false })
          else ok (record s { field = s.field ++ c ∷ [] }))
      else if c == b'"'
      then ok (record s { quoted = true })
      else if c == b','
      then ok (record s { row = closed_row s; field = [] })
      else if c == b'\n'
      then (let matrix = push_row s.matrix (closed_row s) in
          if ltb (max_rows + 1) (length matrix)
          then thrown (row_limit max_rows)
          else ok (record s { matrix = matrix; row = []; field = [] }))
      else if c == b'\r'
      then ok s
      else ok (record s { field = s.field ++ c ∷ [] })

  -- The `for` loop; a doubled quote inside quotes takes two characters.
  pub scan : Scan → Text → Result Scan
  scan s [] = ok s
  scan s (c ∷ []) = step s c
  scan s (c ∷ d ∷ rest) =
      let escaped = scan (record s { field = s.field ++ b'"' ∷ [] }) rest in
      let other = (do t ← step s c; scan t (d ∷ rest)) in
      if s.quoted && c == b'"' && d == b'"' then escaped else other

  -- After the loop, up to the check of the row limit.
  pub finish : Scan → Result (List (List Text))
  finish s =
      if s.quoted
      then thrown unterminated_quote
      else (let matrix = push_row s.matrix (closed_row s) in
          if leb (length matrix) 0
          then thrown empty
          else if ltb max_rows (length matrix - 1)
          then thrown (row_limit max_rows)
          else ok matrix)

  pub read_matrix : Text → Result (List (List Text))
  read_matrix input = do s ← scan initial (strip_bom input); finish s

-- `replace(/[\s-]+/g, '_')`
pub squash : Bool → Text → Text
squash inside [] = []
squash inside (c ∷ s) =
    let sep = is_space c || c == b'-' in
    let rest = squash sep s in if sep then (if inside then rest else b'_' ∷ rest) else c ∷ rest

pub header_name : Text → Text
unfolding squash
header_name value = squash false (to_lower (trim value))

pub has_duplicates : List Text → Bool
has_duplicates [] = false
has_duplicates (h ∷ hs) = includes hs h || has_duplicates hs

-- `Object.fromEntries(headers.map((header, index) => [header, values[index] ?? '']))`
pub row_entries : List Text → List Text → List (Text × Text)
row_entries [] values = []
row_entries (h ∷ hs) [] = (h, []) ∷ row_entries hs []
row_entries (h ∷ hs) (v ∷ vs) = (h, v) ∷ row_entries hs vs

pub table_of : List (List Text) → Result CsvTable
unfolding header_name has_duplicates row_entries
table_of [] = thrown empty
table_of (first ∷ body) =
    let headers = map header_name first in
    if any (λ h. not (is_nonempty h)) headers
    then thrown empty_header
    else if has_duplicates headers
    then thrown duplicate_headers
    else ok (record { headers = headers; rows = map (row_entries headers) body })

unfoldable pub parse_csv : Text → ℕ → Bool → Result CsvTable
unfolding read_matrix scan step finish cell_value strip_bom table_of
parse_csv input max_rows preserve = do matrix ← read_matrix preserve max_rows input; table_of matrix

pub missing : CsvTable → List Text → List Text
missing table [] = []
missing table (h ∷ hs) =
    let rest = missing table hs in if includes table.headers h then rest else h ∷ rest

pub require_headers : CsvTable → List Text → Result (Unit {0})
unfolding missing
require_headers table required = elim (missing table required) [
  | [] ↦ ok tt
  | h ∷ hs ↦ thrown (missing_columns (h ∷ hs))
]

-- `/[",\n\r]/.test(text)`
pub needs_quotes : Text → Bool
needs_quotes text = any (λ c. c == b'"' || c == b',' || c == b'\n' || c == b'\r') text

-- `text.replaceAll('"','""')`
pub double_quotes : Text → Text
double_quotes [] = []
double_quotes (c ∷ s) =
    let rest = double_quotes s in if c == b'"' then b'"' ∷ b'"' ∷ rest else c ∷ rest

unfoldable pub csv_cell : Text → Text
unfolding needs_quotes double_quotes
csv_cell text = if needs_quotes text then b'"' ∷ (double_quotes text ++ b'"' ∷ []) else text

-- `texts.join(sep)` for a separator of one character
pub join : ℕ → List Text → Text
join sep [] = []
join sep (t ∷ []) = t
join sep (t ∷ u ∷ ts) = t ++ sep ∷ join sep (u ∷ ts)

-- The lines of an export: `.map(csvCell).join(',')`, and `.join('\n')` of these.
unfoldable pub csv_line : List Text → Text
unfolding join
csv_line cells = join b',' (map csv_cell cells)

unfoldable pub csv_export : List (List Text) → Text
unfolding join
csv_export rows = join b'\n' (map csv_line rows)
