-- ===== src/Csv/RoundTrip.antt =====
-- The reader of src/csv.ts on the rows of an export of src/index.ts, with `trimValues: false`.
use mathlib.Core.List.{append-nil, append_assoc}
use estatemate_minmoe.Prelude.{
  ℕ, ◌+◌, ◌≤◌, true, false, not, map, sym, ap, List, [], ◌∷◌, ◌++◌, length, any, ◌≡◌, ◌≢◌, refl,
  ◌∙◌, arith, length-append, All,
}
use estatemate_minmoe.Prelude.Text.{Text}
use estatemate_minmoe.Csv.{
  ok, ◌>>=◌, Scan, is_nonempty, strip_bom, cell_value, closed_row, push_row, step, scan, finish,
  csv_line, csv_export, parse_csv, table_of, CsvTable, header_name, has_duplicates, row_entries,
}
use estatemate_minmoe.Csv.Cells.{NoQuoteFirst, scan-step, scan-csv_cell}

-- The state after the cells of a line, the last one still open.
abbrev read_cells : Scan → List Text → Scan
read_cells s [] = s
read_cells s (c ∷ []) = record s { field = c; quoted = false }
read_cells s (c ∷ d ∷ cs) =
    read_cells (record s { row = s.row ++ c ∷ []; field = []; quoted = false }) (d ∷ cs)

module _ (m : ℕ) where
  scan-comma :
      (s : Scan) (c rest : Text)
      → scan true m (record s { field = c; quoted = false }) (b',' ∷ rest)
        ≡ scan true m (record s { row = s.row ++ c ∷ []; field = []; quoted = false }) rest
  unfolding cell_value step
  scan-comma s c rest = scan-step true m _ b',' rest refl

  scan-csv_line :
      (c : Text) (cs : List Text) (s : Scan) (rest : Text)
      → s.quoted ≡ false
      → s.field ≡ []
      → NoQuoteFirst rest
      → scan true m s (csv_line (c ∷ cs) ++ rest) ≡ scan true m (read_cells s (c ∷ cs)) rest
  unfolding csv_line
  scan-csv_line c [] s rest q f n = scan-csv_cell true m c s rest q f n
  scan-csv_line c (d ∷ cs) s rest q f n = rw append_assoc (
      scan-csv_cell true m c s _ q f (omega arith)
      ∙ scan-comma s c _
      ∙ scan-csv_line d cs _ rest refl refl n)

  read_cells-quoted :
      (c : Text) (cs : List Text) (s : Scan) → (read_cells s (c ∷ cs)).quoted ≡ false
  read_cells-quoted c [] s = refl
  read_cells-quoted c (d ∷ cs) s = read_cells-quoted d cs _

  read_cells-matrix :
      (c : Text) (cs : List Text) (s : Scan) → (read_cells s (c ∷ cs)).matrix ≡ s.matrix
  read_cells-matrix c [] s = refl
  read_cells-matrix c (d ∷ cs) s = read_cells-matrix d cs _

  closed_row-read_cells :
      (c : Text) (cs : List Text) (s : Scan)
      → closed_row true m (read_cells s (c ∷ cs)) ≡ s.row ++ c ∷ cs
  unfolding cell_value
  closed_row-read_cells c [] s = refl
  closed_row-read_cells c (d ∷ cs) s = closed_row-read_cells d cs _ ∙ rw append_assoc

  abbrev at_line : List (List Text) → Scan
  at_line matrix = record { matrix = matrix; row = []; field = []; quoted = false }

  -- A row that is not dropped as blank.
  abbrev IsRow : List Text → Type 0
  IsRow row = any is_nonempty row ≡ true

  module _ (t : Scan) (row : List Text) (matrix : List (List Text)) (q : t.quoted ≡ false)
      (read : t.matrix ≡ matrix) (closed : closed_row true m t ≡ row) (h : IsRow row)
      (fits : length matrix ≤ m) where
    push_row-IsRow : push_row true m t.matrix (closed_row true m t) ≡ matrix ++ row ∷ []
    push_row-IsRow = rw (closed, read, h)

    step_newline : step true m t b'\n' ≡ ok (at_line (matrix ++ row ∷ []))
    unfolding step
    step_newline = rw (q, push_row-IsRow) (ground (arith, length-append matrix (row ∷ [])))

    finish_row : finish true m t ≡ ok (matrix ++ row ∷ [])
    unfolding finish
    finish_row = rw (q, push_row-IsRow) (ground (arith, length-append matrix (row ∷ [])))

  scan_line :
      (c : Text) (cs : List Text) (matrix : List (List Text)) (rest : Text)
      → NoQuoteFirst rest
      → scan true m (at_line matrix) (csv_line (c ∷ cs) ++ rest)
        ≡ scan true m (read_cells (at_line matrix) (c ∷ cs)) rest
  scan_line c cs matrix rest n = scan-csv_line c cs (at_line matrix) rest refl refl n

  module _ (c : Text) (cs : List Text) (matrix : List (List Text)) (h : IsRow (c ∷ cs))
      (fits : length matrix ≤ m) where
    abbrev after : Scan
    after = read_cells (at_line matrix) (c ∷ cs)

    scan_row :
        (rest : Text)
        → scan true m (at_line matrix) (csv_line (c ∷ cs) ++ b'\n' ∷ rest)
          ≡ scan true m (at_line (matrix ++ (c ∷ cs) ∷ [])) rest
    scan_row rest =
        scan_line c cs matrix (b'\n' ∷ rest) (omega arith)
        ∙ scan-step true m after b'\n' rest (rw (read_cells-quoted c cs (at_line matrix)))
        ∙ rw (
            step_newline after (c ∷ cs) matrix (read_cells-quoted c cs _) (read_cells-matrix c cs _)
              (closed_row-read_cells c cs _) h fits)

    scan-nil : (s : Scan) → scan true m s [] ≡ ok s
    unfolding scan
    scan-nil s = refl

    scan_last_row :
        (scan true m (at_line matrix) (csv_line (c ∷ cs)) >>= finish true m)
        ≡ ok (matrix ++ (c ∷ cs) ∷ [])
    scan_last_row =
        rw (rw append-nil at (scan_line c cs matrix [] tt), scan-nil)
          (finish_row after (c ∷ cs) matrix (read_cells-quoted c cs _) (read_cells-matrix c cs _)
            (closed_row-read_cells c cs _) h fits)

  read_rows :
      (r : List Text) (rs matrix : List (List Text))
      → IsRow r
      → All IsRow rs
      → length matrix + length rs ≤ m
      → (scan true m (at_line matrix) (csv_export (r ∷ rs)) >>= finish true m)
        ≡ ok (matrix ++ r ∷ rs)
  unfolding csv_export
  read_rows [] rs matrix h hs fits = cc
  read_rows (c ∷ cs) [] matrix h hs fits = scan_last_row c cs matrix h (omega arith)
  read_rows (c ∷ cs) (r ∷ rs) matrix h (hr, hs) fits =
      let row = c ∷ cs in
      let rest =
        read_rows r rs (matrix ++ row ∷ []) hr hs
          (omega (arith, length-append matrix (row ∷ []))) in
      rw (scan_row c cs matrix h (omega arith)) (rest ∙ rw append_assoc)

abbrev pub NoBomFirst : Text → Type 0
NoBomFirst [] = Unit
NoBomFirst (d ∷ _) = d ≢ 0xfeff

strip_bom_id : (input : Text) → NoBomFirst input → strip_bom input ≡ input
unfolding strip_bom
strip_bom_id [] h = refl
strip_bom_id (c ∷ s) h = ground arith

read_export :
    (max_rows : ℕ) (header : List Text) (body : List (List Text))
    → any is_nonempty header ≡ true
    → All (λ row. any is_nonempty row ≡ true) body
    → length body ≤ max_rows
    → NoBomFirst (csv_export (header ∷ body))
    → parse_csv (csv_export (header ∷ body)) max_rows true ≡ table_of (header ∷ body)
unfolding parse_csv
read_export max_rows header body h hs fits no_bom =
    rw (strip_bom_id _ no_bom, read_rows max_rows header body [] h hs (omega arith))

abbrev pub keys_of : List (Text × Text) → List Text
keys_of row = map (λ e. e.0) row

abbrev pub values_of : List (Text × Text) → List Text
values_of row = map (λ e. e.1) row

keys_of-row_entries : (hs vs : List Text) → keys_of (row_entries hs vs) ≡ hs
unfolding row_entries
keys_of-row_entries [] vs = refl
keys_of-row_entries (h ∷ hs) [] = ap (λ r. h ∷ r) (keys_of-row_entries hs [])
keys_of-row_entries (h ∷ hs) (v ∷ vs) = ap (λ r. h ∷ r) (keys_of-row_entries hs vs)

values_of-row_entries :
    (hs vs : List Text) → length vs ≡ length hs → values_of (row_entries hs vs) ≡ vs
unfolding row_entries
values_of-row_entries [] [] e = refl
values_of-row_entries [] (v ∷ vs) e = absurd (omega (arith, e))
values_of-row_entries (h ∷ hs) [] e = absurd (omega (arith, e))
values_of-row_entries (h ∷ hs) (v ∷ vs) e =
    ap (λ r. v ∷ r) (values_of-row_entries hs vs (omega (arith, e)))

length-names : (header : List Text) → length (map header_name header) ≡ length header
length-names [] = refl
length-names (h ∷ hs) = omega (arith, length-names hs)

rows-keys :
    (hs : List Text) (body : List (List Text))
    → All (λ row. keys_of row ≡ hs) (map (row_entries hs) body)
rows-keys hs [] = tt
rows-keys hs (row ∷ body) = (keys_of-row_entries hs row, rows-keys hs body)

rows-values :
    (hs : List Text) (body : List (List Text))
    → All (λ row. length row ≡ length hs) body
    → map values_of (map (row_entries hs) body) ≡ body
rows-values hs [] e = refl
rows-values hs (row ∷ body) (e, es) =
    ap (λ r. r ∷ map values_of (map (row_entries hs) body)) (values_of-row_entries hs row e)
    ∙ ap (λ r. row ∷ r) (rows-values hs body es)

same_length :
    (m n : ℕ) (body : List (List Text))
    → m ≡ n
    → All (λ row. length row ≡ m) body
    → All (λ row. length row ≡ n) body
same_length m n [] e h = tt
same_length m n (row ∷ body) e (h, hs) = (h ∙ e, same_length m n body e hs)

-- Reading an export back, with cells kept untrimmed, gives a table of exactly the exported rows,
-- whatever the cells hold (commas, quotes, line breaks): the reader answers with a table whose headers are
-- the names of the header row, each of whose rows has these as its keys, in order, and the exported cells
-- as its values. The conditions are that no row is blank, that the names of the headers are not empty and
-- differ, that every body row is as long as the header row, that the body has at most `max_rows` rows, and
-- that the text does not begin with a byte-order mark.
pub parse_csv-csv_export :
    (max_rows : ℕ) (header : List Text) (body : List (List Text))
    → any is_nonempty header ≡ true
    → All (λ row. any is_nonempty row ≡ true) body
    → any (λ h. not (is_nonempty h)) (map header_name header) ≡ false
    → has_duplicates (map header_name header) ≡ false
    → All (λ row. length row ≡ length header) body
    → length body ≤ max_rows
    → NoBomFirst (csv_export (header ∷ body))
    → (table : CsvTable) × (parse_csv (csv_export (header ∷ body)) max_rows true ≡ ok table)
      × (table.headers ≡ map header_name header)
      × All (λ row. keys_of row ≡ map header_name header) table.rows
      × (map values_of table.rows ≡ body)
unfolding table_of
parse_csv-csv_export max_rows header body h hs named apart even fits no_bom =
    let names = map header_name header in
    (
      record { headers = names; rows = map (row_entries names) body },
      read_export max_rows header body h hs fits no_bom ∙ rw (named, apart) refl,
      refl,
      rows-keys names body,
      rows-values names body
          (same_length (length header) (length names) body (sym (length-names header)) even),
    )
