-- ===== src/Cells.antt =====
-- typescript/packages/core/src/cell-diff.ts, param-diff.ts and doc-string-diff.ts: the comparison of
-- what a step returned with the cells of the document.
pub mod Tables
pub mod Rows
pub mod Params
pub mod DocStrings
mod Tests
use varar.Base.{
  ℕ, zero, suc, ◌+◌, Bool, true, false, not, ◌&&◌, ◌||◌, List, [], ◌∷◌, ◌++◌, Option, none, some,
  ◌==◌, if◌then◌else◌, length, get_elem?, all,
}
use mathlib.Core.Option
use varar.Text.{Text, text_eq, decimal, codes}
use varar.Span.{Span}
use varar.Ast.{Row, Table}
use varar.DeepEqual.{deep_equal}
use varar.Value.{
  Value, undefined, null, bool, num, str, function, date, array, object, map_of, set_of, Values,
  nil, cons, Fields, to_list, field_of,
}

pub record RowCheck : Type 0 where
  pub column : Text
  pub value : Text
  pub span : Span

pub record CellDiff : Type 0 where
  pub column : Text
  pub span : Span
  pub expected : Text
  pub actual : Text
  pub ok : Bool
  pub expected_value : Option Value
  pub actual_value : Option Value
  pub formatted : Option Bool

-- What the source uses of the JavaScript runtime: `String(v)`; `JSON.stringify(v)`, `none` where it
-- throws or gives undefined; the properties that a value has beside its own enumerable ones (those of
-- its prototypes, and `length` of an array); and the display formatters, `none` where one throws.
pub record Runtime : Type 0 where
  pub to_string : Value → Text
  pub to_json : Value → Option Text
  pub other_property : Value → Text → Option Value
  pub format : ℕ → Value → Option Text

-- `ReturnShapeError`, by its message
pub data ShapeError : Type 0 where
  not_a_table : Value → ShapeError
  row_count : (expected actual : ℕ) → ShapeError
  mixed_rows : ShapeError
  column_count : (row expected actual : ℕ) → ShapeError
  missing_column : (row : ℕ) (column : Text) → ShapeError
  not_a_string : Value → ShapeError
  stimulus_result : ShapeError
  no_slots : ShapeError
  slots_missing : ℕ → ShapeError
  slots_no_array : ℕ → Value → ShapeError
  slots_count : (expected actual : ℕ) → ShapeError
  row_missing : ShapeError
  unknown_kind : ShapeError

-- a result, or a thrown `ReturnShapeError`
pub data Checked {ℓ} (A : Type ℓ) : Type ℓ where
  checked : A → Checked A
  misshaped : ShapeError → Checked A

infixl 5 ◌>>=◌
abbrev pub ◌>>=◌ {ℓ κ} : {A : Type ℓ} {B : Type κ} → Checked A → (A → Checked B) → Checked B
checked a >>= f = f a
misshaped e >>= f = misshaped e

-- `typeof v === 'object'`, null included
abbrev pub is_object_type : Value → Bool
is_object_type null = true
is_object_type (date i t) = true
is_object_type (array i vs) = true
is_object_type (object i fs) = true
is_object_type (map_of i es) = true
is_object_type (set_of i vs) = true
is_object_type _ = false

abbrev pub is_array : Value → Bool
is_array (array i vs) = true
is_array _ = false

abbrev pub is_null : Value → Bool
is_null null = true
is_null _ = false

abbrev elem_at : ℕ → Text → List Value → Option Value
elem_at i k [] = none
elem_at i k (v ∷ vs) = if text_eq (decimal i) k then some v else elem_at (suc i) k vs

-- the own enumerable properties
unfoldable pub own_property : Value → Text → Option Value
unfolding decimal text_eq
own_property (object i fs) k = field_of k fs
own_property (array i vs) k = elem_at 0 k (to_list vs)
own_property _ k = none

module _ (runtime : Runtime) where
  -- `renderCellValue`
  unfoldable pub render_cell_value : Value → Text
  render_cell_value (str s) = s
  render_cell_value v =
      if not (is_object_type v) || is_null v
      then runtime.to_string v
      else elim (runtime.to_json v) [ none ↦ runtime.to_string v | some t ↦ t ]

  -- `v[k]`, and `none` where `k in v` is false
  unfoldable pub property : Value → Text → Option Value
  unfolding own_property
  property v k = elim (own_property v k) [ none ↦ runtime.other_property v k | some w ↦ some w ]

  abbrev pub cell_diff : Text → Span → (expected actual : Text) → CellDiff
  cell_diff column span expected actual = record {
    column = column;
    span = span;
    expected = expected;
    actual = actual;
    ok = text_eq actual expected;
    expected_value = none;
    actual_value = none;
    formatted = none;
  }

  -- the loop of `compareRow`
  unfoldable pub row_diffs : Value → List RowCheck → List CellDiff
  unfolding render_cell_value property
  row_diffs returned [] = []
  row_diffs returned (check ∷ checks) = elim (property returned check.column) [
    | none ↦ row_diffs returned checks
    | some v ↦
        cell_diff check.column check.span check.value (render_cell_value v)
        ∷ row_diffs returned checks
  ]

  unfoldable pub compare_row : Value → List RowCheck → List CellDiff
  unfolding row_diffs
  compare_row returned checks =
      if is_null returned || not (is_object_type returned) then [] else row_diffs returned checks
