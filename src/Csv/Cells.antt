-- ===== src/Csv/Cells.antt =====
-- The reader of src/csv.ts on what `csvCell` of src/index.ts writes. Each lemma runs the loop over
-- one piece of the text, with any `rest` behind it.
use mathlib.Core.List.{append-nil, append_assoc}
use estatemate_minmoe.Prelude.{
  ℕ, Bool, true, false, ◌&&◌, ◌||◌, [], ◌∷◌, ◌++◌, ◌==◌, ◌≡◌, ◌≢◌, refl, sym, ◌∙◌, inl, inr, arith,
  Bool-cases,
}
use estatemate_minmoe.Prelude.Text.{Text}
use estatemate_minmoe.Csv.{
  Result, ok, thrown, ◌>>=◌, Scan, step, scan, needs_quotes, double_quotes, csv_cell,
}

bind-ok {ℓ} : {A : Type ℓ} (m : Result A) → (m >>= λ t. ok t) ≡ m
bind-ok (ok a) = refl
bind-ok (thrown e) = refl

abbrev pub NoQuoteFirst : Text → Type 0
NoQuoteFirst [] = Unit
NoQuoteFirst (d ∷ _) = d ≢ b'"'

csv_cell_quoted :
    (t : Text) → needs_quotes t ≡ true → csv_cell t ≡ b'"' ∷ (double_quotes t ++ b'"' ∷ [])
unfolding csv_cell
csv_cell_quoted t h = rw h

csv_cell_plain : (t : Text) → needs_quotes t ≡ false → csv_cell t ≡ t
unfolding csv_cell
csv_cell_plain t h = rw h

module _ (preserve : Bool) (m : ℕ) where
  -- A character that opens no doubled quote is one step.
  pub scan-step :
      (s : Scan) (c : ℕ) (rest : Text)
      → (s.quoted && c == b'"') ≡ false
      → scan preserve m s (c ∷ rest) ≡ (step preserve m s c >>= λ t. scan preserve m t rest)
  unfolding scan
  scan-step s c [] h = sym (bind-ok (step preserve m s c))
  scan-step s c (d ∷ rest) h = ground arith

  scan-close :
      (s : Scan) (rest : Text)
      → s.quoted ≡ true
      → NoQuoteFirst rest
      → scan preserve m s (b'"' ∷ rest) ≡ scan preserve m (record s { quoted = false }) rest
  unfolding scan step
  scan-close s [] q n = ground arith
  scan-close s (d ∷ rest) q n = ground arith

  scan-escaped :
      (s : Scan) (c : ℕ) (rest : Text)
      → s.quoted ≡ true
      → c ≡ b'"'
      → scan preserve m s (b'"' ∷ b'"' ∷ rest)
        ≡ scan preserve m (record s { field = s.field ++ c ∷ [] }) rest
  unfolding scan
  scan-escaped s c rest q e = rw (q, e)

  scan-character :
      (s : Scan) (c : ℕ) (rest : Text)
      → s.quoted ≡ true
      → (c == b'"') ≡ false
      → scan preserve m s (c ∷ rest) ≡ scan preserve m (record s { field = s.field ++ c ∷ [] }) rest
  scan-character s c rest q h = scan-step s c rest (ground arith) ∙ unfold step in rw (q, h)

  scan-double_quotes :
      (t : Text) (s : Scan) (rest : Text)
      → s.quoted ≡ true
      → NoQuoteFirst rest
      → scan preserve m s (double_quotes t ++ b'"' ∷ rest)
        ≡ scan preserve m (record s { field = s.field ++ t; quoted = false }) rest
  unfolding double_quotes
  scan-double_quotes [] s rest q n = rw append-nil (scan-close s rest q n)
  scan-double_quotes (c ∷ t) s rest q n =
      let ih = scan-double_quotes t (record s { field = s.field ++ c ∷ [] }) rest q n in
      elim (Bool-cases (c == b'"')) [
        | inl quote ↦ rw (quote, ◌++◌) (scan-escaped s c _ q (ground arith) ∙ ih ∙ rw append_assoc)
        | inr other ↦ rw (other, ◌++◌) (scan-character s c _ q other ∙ ih ∙ rw append_assoc)
      ]

  scan-plain_character :
      (s : Scan) (c : ℕ) (rest : Text)
      → s.quoted ≡ false
      → (c == b'"' || c == b',' || c == b'\n' || c == b'\r') ≡ false
      → scan preserve m s (c ∷ rest) ≡ scan preserve m (record s { field = s.field ++ c ∷ [] }) rest
  scan-plain_character s c rest q h =
      scan-step s c rest (ground arith) ∙ unfold step in ground arith

  -- A text that needs no quotes is read as it stands.
  scan_plain :
      (t : Text) (s : Scan) (rest : Text)
      → s.quoted ≡ false
      → needs_quotes t ≡ false
      → scan preserve m s (t ++ rest) ≡ scan preserve m (record s { field = s.field ++ t }) rest
  unfolding needs_quotes
  scan_plain [] s rest q n = rw append-nil
  scan_plain (c ∷ t) s rest q n =
      scan-plain_character s c (t ++ rest) q (ground arith)
      ∙ scan_plain t (record s { field = s.field ++ c ∷ [] }) rest q (ground arith)
      ∙ rw append_assoc

  scan-open :
      (s : Scan) (rest : Text)
      → s.quoted ≡ false
      → scan preserve m s (b'"' ∷ rest) ≡ scan preserve m (record s { quoted = true }) rest
  scan-open s rest q = scan-step s b'"' rest (ground arith) ∙ unfold step in rw q

  -- A cell, as `csvCell` writes it, is read back into the field.
  pub scan-csv_cell :
      (t : Text) (s : Scan) (rest : Text)
      → s.quoted ≡ false
      → s.field ≡ []
      → NoQuoteFirst rest
      → scan preserve m s (csv_cell t ++ rest)
        ≡ scan preserve m (record s { field = t; quoted = false }) rest
  scan-csv_cell t s rest q f n = elim (Bool-cases (needs_quotes t)) [
    | inl quotes ↦
        rw (csv_cell_quoted t quotes, ◌++◌, append_assoc)
          (scan-open s _ q ∙ scan-double_quotes t (record s { quoted = true }) rest refl n ∙ λ i.
            scan preserve m (record s { field = onto_empty i; quoted = false }) rest)
    | inr plain ↦ rw (csv_cell_plain t plain) (
        scan_plain t s rest q plain ∙ λ i.
        scan preserve m (record s { field = onto_empty i; quoted = q i }) rest)
  ]
    where
      onto_empty : s.field ++ t ≡ t
      onto_empty = rw f
