-- ===== src/Cells/Tables.antt =====
-- `compareTable` of typescript/packages/core/src/cell-diff.ts.
pub mod Exact
use varar.Base.{
  ℕ, zero, suc, ◌+◌, Bool, true, false, not, ◌&&◌, ◌||◌, List, [], ◌∷◌, ◌++◌, Option, none, some,
  ◌==◌, if◌then◌else◌, length, get_elem?, all,
}
use varar.Text.{Text, text_eq, decimal, codes}
use varar.Span.{Span}
use varar.Ast.{Row, Table}
use varar.DeepEqual.{deep_equal}
use varar.Value.{Value, undefined, str, array, to_list}
use varar.Cells.{
  RowCheck, CellDiff, Runtime, ShapeError, not_a_table, row_count, mixed_rows, column_count,
  missing_column, not_a_string, Checked, checked, misshaped, ◌>>=◌, is_object_type, is_array,
  is_null, render_cell_value, property, cell_diff,
}

-- `row.cells[j] ?? ''` and `row.cellSpans[j] ?? row.span`
abbrev pub cell_text : Row → ℕ → Text
cell_text row j = elim (get_elem? row.cells j) [ none ↦ [] | some t ↦ t ]

abbrev pub cell_span : Row → ℕ → Span
cell_span row j = elim (get_elem? row.cell_spans j) [ none ↦ row.span | some s ↦ s ]

abbrev pub elements : Value → List Value
elements (array i vs) = to_list vs
elements _ = []

abbrev is_record : Value → Bool
is_record v = not (is_null v) && is_object_type v && not (is_array v)

module _ (runtime : Runtime) where
  abbrev pub table_cell : Row → ℕ → Text → Value → CellDiff
  table_cell row j column v =
      cell_diff runtime column (cell_span row j) (cell_text row j) (render_cell_value runtime v)

  -- The columns of one row, from column `j` on. The array row has as many values as columns.
  unfoldable pub array_row_diffs : Row → ℕ → List Text → List Value → List CellDiff
  unfolding render_cell_value
  array_row_diffs row j (column ∷ columns) (v ∷ vs) =
      table_cell row j column v ∷ array_row_diffs row (suc j) columns vs
  array_row_diffs row j _ _ = []

  unfoldable pub record_row_diffs : ℕ → Row → ℕ → List Text → Value → Checked (List CellDiff)
  unfolding render_cell_value property
  record_row_diffs i row j [] ret = checked []
  record_row_diffs i row j (column ∷ columns) ret =
      let rest = record_row_diffs i row (suc j) columns ret in
      elim (property runtime ret column) [
        | none ↦ misshaped (missing_column i column)
        | some v ↦ rest >>= λ ds. checked (table_cell row j column v ∷ ds)
      ]

  -- one round of the loop over the rows
  unfoldable pub table_row_diffs : Bool → ℕ → Row → List Text → Value → Checked (List CellDiff)
  unfolding array_row_diffs record_row_diffs
  table_row_diffs true i row columns ret =
      if not (length (elements ret) == length columns)
      then misshaped (column_count i (length columns) (length (elements ret)))
      else checked (array_row_diffs row 0 columns (elements ret))
  table_row_diffs false i row columns ret = record_row_diffs i row 0 columns ret

  -- the loop over the rows; there are as many returned values as rows
  unfoldable pub table_diffs :
      Bool → ℕ → List Text → List Row → List Value → Checked (List CellDiff)
  unfolding table_row_diffs
  table_diffs all_arrays i columns (row ∷ rows) (ret ∷ rets) =
      let rest = table_diffs all_arrays (suc i) columns rows rets in
      table_row_diffs all_arrays i row columns ret >>= λ ds. rest >>= λ es. checked (ds ++ es)
  table_diffs all_arrays i columns _ _ = checked []

  unfoldable pub compare_rows : List Value → Table → Checked (List CellDiff)
  unfolding table_diffs
  compare_rows returned input =
      let all_arrays = all is_array returned in
      if not (length returned == length input.rows)
      then misshaped (row_count (length input.rows) (length returned))
      else if not all_arrays && not (all is_record returned)
      then misshaped mixed_rows
      else table_diffs all_arrays 0 input.header.cells input.rows returned

  unfoldable pub compare_table : Value → Table → Checked (List CellDiff)
  unfolding compare_rows
  compare_table undefined input = checked []
  compare_table (array i vs) input = compare_rows (to_list vs) input
  compare_table v input = misshaped (not_a_table v)
