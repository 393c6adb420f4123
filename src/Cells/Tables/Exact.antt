-- ===== src/Cells/Tables/Exact.antt =====
-- When a returned table is accepted.
use mathlib.Core.Path.{ap₂}
use varar.Base.{
  ℕ, suc, true, List, [], ◌∷◌, ◌++◌, map, ◌==◌, ◌≡◌, refl, ap, ◌↔◌, arith, length, length-map, all,
  All, All-append, Bool-cases, inl, inr,
}
use varar.Text.{Text}
use varar.Text.Laws.{text_eq_iff}
use varar.Ast.{Row, Table}
use varar.Value.{Value, array, Values, to_list}
use varar.Cells.{CellDiff, Runtime, Checked, checked, misshaped, ◌>>=◌, is_array, render_cell_value}
use varar.Cells.Tables.{
  cell_text, elements, array_row_diffs, table_row_diffs, table_diffs, compare_rows, compare_table,
}

abbrev pub IsOk : CellDiff → Type 0
IsOk d = d.ok ≡ true

-- The comparison throws nothing and finds no difference.
abbrev pub IsAccepted : Checked (List CellDiff) → Type 0
IsAccepted (checked ds) = All IsOk ds
IsAccepted (misshaped e) = ⊥

module _ (runtime : Runtime) where
  -- the texts of a row's cells, from column `j` on: the empty text where the row is too short
  abbrev pub row_texts : ℕ → List Text → Row → List Text
  row_texts j [] row = []
  row_texts j (c ∷ columns) row = cell_text row j ∷ row_texts (suc j) columns row

  abbrev pub rendered : Value → List Text
  rendered ret = map (render_cell_value runtime) (elements ret)

  length-row_texts :
      (j : ℕ) (columns : List Text) (row : Row) → length (row_texts j columns row) ≡ length columns
  length-row_texts j [] row = refl
  length-row_texts j (c ∷ columns) row = ap suc (length-row_texts (suc j) columns row)

  array_row_diffs-IsOk :
      (row : Row) (j : ℕ) (columns : List Text) (vs : List Value)
      → length vs ≡ length columns
      → All IsOk (array_row_diffs runtime row j columns vs)
        ↔ (map (render_cell_value runtime) vs ≡ row_texts j columns row)
  unfolding array_row_diffs
  array_row_diffs-IsOk row j [] [] h = (λ _. refl, λ _. tt)
  array_row_diffs-IsOk row j [] (v ∷ vs) h = absurd (omega arith)
  array_row_diffs-IsOk row j (c ∷ columns) [] h = absurd (omega arith)
  array_row_diffs-IsOk row j (c ∷ columns) (v ∷ vs) h =
      let ih = array_row_diffs-IsOk row (suc j) columns vs (omega arith) in
      (
        λ p. ap₂ ◌∷◌ ((text_eq_iff _ _).0 p.0) (ih.0 p.1),
        λ e. ((text_eq_iff _ _).1 (cc), ih.1 (cc)),
      )

  -- one round, for an array row
  table_row_diffs-IsAccepted :
      (i : ℕ) (row : Row) (columns : List Text) (ret : Value)
      → IsAccepted (table_row_diffs runtime true i row columns ret)
        ↔ (rendered ret ≡ row_texts 0 columns row)
  unfolding table_row_diffs
  table_row_diffs-IsAccepted i row columns ret =
      elim (Bool-cases (length (elements ret) == length columns)) [
        | inl e ↦ rw e (array_row_diffs-IsOk row 0 columns (elements ret) (ground arith))
        | inr e ↦ rw e (
          λ a. absurd a,
          λ s. absurd (
              ground (
                arith,
                ap (length {0}) s,
                length-row_texts 0 columns row,
                length-map (render_cell_value runtime) (elements ret),
              )),
        )
      ]

  -- the accepted rows, one after the other
  IsAccepted->>= :
      (m n : Checked (List CellDiff))
      → IsAccepted (m >>= λ ds. n >>= λ es. checked (ds ++ es)) ↔ (IsAccepted m × IsAccepted n)
  IsAccepted->>= (misshaped e) n = (λ a. absurd a, λ a. a.0)
  IsAccepted->>= (checked ds) (misshaped e) = (λ a. absurd a, λ a. a.1)
  IsAccepted->>= (checked ds) (checked es) = (All-split ds, λ a. All-append IsOk ds es a.0 a.1)
    where
      All-split : (ds : List CellDiff) → All IsOk (ds ++ es) → All IsOk ds × All IsOk es
      All-split [] a = (tt, a)
      All-split (d ∷ ds) (p, a) = let (q, r) = All-split ds a in ((p, q), r)

  table_diffs-IsAccepted :
      (i : ℕ) (columns : List Text) (rows : List Row) (rets : List Value)
      → length rets ≡ length rows
      → IsAccepted (table_diffs runtime true i columns rows rets)
        ↔ (map rendered rets ≡ map (row_texts 0 columns) rows)
  unfolding table_diffs
  table_diffs-IsAccepted i columns [] [] h = (λ _. refl, λ _. tt)
  table_diffs-IsAccepted i columns [] (r ∷ rets) h = absurd (omega arith)
  table_diffs-IsAccepted i columns (row ∷ rows) [] h = absurd (omega arith)
  table_diffs-IsAccepted i columns (row ∷ rows) (ret ∷ rets) h =
      let both =
        IsAccepted->>= (table_row_diffs runtime true i row columns ret)
          (table_diffs runtime true (suc i) columns rows rets) in
      let first = table_row_diffs-IsAccepted i row columns ret in
      let ih = table_diffs-IsAccepted (suc i) columns rows rets (omega arith) in
      (
        λ a. let (p, q) = both.0 a in ap₂ ◌∷◌ (first.0 p) (ih.0 q),
        λ e. both.1 (first.1 (cc), ih.1 (cc)),
      )

  compare_rows-IsAccepted :
      (rets : List Value) (input : Table)
      → all is_array rets ≡ true
      → IsAccepted (compare_rows runtime rets input)
        ↔ (map rendered rets ≡ map (row_texts 0 input.header.cells) input.rows)
  unfolding compare_rows
  compare_rows-IsAccepted rets input arrays = elim (Bool-cases (length rets == length input.rows)) [
    | inl e ↦
        rw (e, arrays) (table_diffs-IsAccepted 0 input.header.cells input.rows rets (ground arith))
    | inr e ↦ rw e (
      λ a. absurd a,
      λ s. absurd (
          ground (
            arith,
            ap (length {0}) s,
            length-map rendered rets,
            length-map (row_texts 0 input.header.cells) input.rows,
          )),
    )
  ]

  -- A table that a step returns as an array of arrays is accepted exactly when its values, rendered,
  -- are the texts of the data rows, row by row and in the order of the header's columns. (Where a
  -- row has too few cells, the empty text is expected.)
  pub compare_table-IsAccepted :
      (i : ℕ) (rows : Values) (input : Table)
      → all is_array (to_list rows) ≡ true
      → IsAccepted (compare_table runtime (array i rows) input)
        ↔ (map rendered (to_list rows) ≡ map (row_texts 0 input.header.cells) input.rows)
  unfolding compare_table
  compare_table-IsAccepted i rows input arrays = compare_rows-IsAccepted (to_list rows) input arrays
