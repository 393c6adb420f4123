-- ===== src/Cells/Params.antt =====
-- typescript/packages/core/src/param-diff.ts: the values captured in a sentence.
pub mod Pairs
use varar.Base.{
  ℕ, zero, suc, ◌+◌, Bool, true, false, not, ◌&&◌, ◌||◌, List, [], ◌∷◌, ◌++◌, Option, none, some,
  ◌==◌, if◌then◌else◌, length, get_elem?, all,
}
use varar.Text.{Text, text_eq, decimal, codes}
use varar.Span.{Span}
use varar.Ast.{Row, Table}
use varar.DeepEqual.{deep_equal}
use varar.Value.{Value, undefined, str, array, to_list}
use varar.Cells.{
  RowCheck, CellDiff, Runtime, ShapeError, not_a_table, row_count, mixed_rows, column_count,
  missing_column, not_a_string, Checked, checked, misshaped, ◌>>=◌, is_object_type, is_array,
  is_null, render_cell_value, property, cell_diff,
}

abbrev pub or_undefined : Option Value → Value
or_undefined none = undefined
or_undefined (some v) = v

abbrev pub or_none {ℓ} : {A : Type ℓ} → Option (Option A) → Option A
or_none none = none
or_none (some o) = o

-- `paramSpans[i] as Span`: the caller gives a span for each argument
abbrev param_span : Option Span → Span
param_span (some s) = s
param_span none = record {
  start_offset = 0;
  end_offset = 0;
  start_line = 0;
  start_col = 0;
  end_line = 0;
  end_col = 0;
}

module _ (runtime : Runtime) where
  -- `renderParamValue`: the text, and whether the formatter made it
  unfoldable pub render_param_value : Value → Option ℕ → Text × Bool
  unfolding render_cell_value
  render_param_value v none = (render_cell_value runtime v, false)
  render_param_value v (some f) = elim (runtime.format f v) [
    | none ↦ (render_cell_value runtime v, false)
    | some t ↦ (t, true)
  ]

  -- one round of `compareParams`
  unfoldable pub param_diff :
      List Value → List Span → List Text → List (Option ℕ) → ℕ → Value → CellDiff
  unfolding render_param_value
  param_diff returned spans texts formats i expected =
      let actual = or_undefined (get_elem? returned i) in
      let format = or_none (get_elem? formats i) in
      let (text, via_format) = render_param_value actual format in
      record {
        column = codes "cell " ++ decimal (i + 1);
        span = param_span (get_elem? spans i);
        expected = elim (get_elem? texts i) [
          | none ↦ (render_param_value expected format).0
          | some t ↦ t
        ];
        actual = text;
        ok = deep_equal actual expected;
        expected_value = some expected;
        actual_value = some actual;
        formatted = some via_format;
      }

  unfoldable pub param_diffs :
      List Value → List Span → List Text → List (Option ℕ) → ℕ → List Value → List CellDiff
  unfolding param_diff
  param_diffs returned spans texts formats i [] = []
  param_diffs returned spans texts formats i (expected ∷ rest) =
      param_diff returned spans texts formats i expected
      ∷ param_diffs returned spans texts formats (suc i) rest

  unfoldable pub compare_params :
      (returned expected : List Value) → List Span → List Text → List (Option ℕ) → List CellDiff
  unfolding param_diffs
  compare_params returned expected spans texts formats =
      param_diffs returned spans texts formats 0 expected
