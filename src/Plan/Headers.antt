-- ===== src/Plan/Headers.antt =====
-- Header-bound tables: a table whose header cells are all named in the paragraph above it.
use varar.Base.{
  ℕ, suc, ◌+◌, false, not, ◌&&◌, List, [], ◌∷◌, ◌++◌, Option, none, some, if◌then◌else◌, length,
}
use varar.Text.{Text, text_eq, codes, join_with, starts_with}
use varar.Span.{Span}
use varar.Ast.{Row, Table, Block, table, Example}
use varar.Value.{Value, str, object, Fields, end, field}
use varar.Unicode.{Unicode}
use varar.Cells.{RowCheck}
use varar.Cells.Tables.{cell_text, cell_span}
use varar.Plan.{PlannedStep, PlannedExample}
use varar.Plan.Planned.{Planned, pure, lifted, each, ◌>>=◌}
use varar.Plan.Lifting.{lift_span, block_text}

-- a block of the candidate with the steps that were found in it
pub record Entry : Type 0 where
  pub block : Block
  pub steps : List PlannedStep

unfoldable pub last_step : List PlannedStep → Option PlannedStep
last_step [] = none
last_step (s ∷ []) = some s
last_step (s ∷ t ∷ steps) = last_step (t ∷ steps)

pub record Bound : Type 0 where
  pub table : Table
  pub step : PlannedStep
  pub header_spans : List Span

-- `rowObject[cell] = value`. Names like integers, which come first in an object, and `__proto__` are
-- left out.
unfoldable pub set_field : Text → Value → Fields → Fields
unfolding text_eq
set_field k v end = field k v end
set_field k v (field j w fields) =
    if text_eq j k then field j v fields else field j w (set_field k v fields)

unfoldable pub row_fields : ℕ → List Text → Row → Fields → Fields
unfolding set_field
row_fields i [] row fields = fields
row_fields i (cell ∷ cells) row fields =
    row_fields (suc i) cells row (set_field cell (str (cell_text row i)) fields)

unfoldable pub row_checks_from : ℕ → List Text → Row → List RowCheck
row_checks_from i [] row = []
row_checks_from i (column ∷ columns) row =
    record { column = column; value = cell_text row i; span = cell_span row i }
    ∷ row_checks_from (suc i) columns row

-- the example of one row; the new object has the identity 0
unfoldable pub row_example : Example → Bound → Row → PlannedExample
unfolding row_fields row_checks_from join_with
row_example ex bound row =
    let row_object = object 0 (row_fields 0 bound.table.header.cells row end) in
    record {
      name = join_with (codes " / ") row.cells;
      scope_stack = ex.scope_stack ++ bound.step.text ∷ [];
      span = row.span;
      steps =
          record bound.step { match_span = row.span; args = bound.step.args ++ row_object ∷ [] }
          ∷ [];
      header_binding = some (record {
        match_span = bound.step.match_span;
        param_spans = bound.header_spans;
        header_cell_spans = bound.table.header.cell_spans;
        step_def = bound.step.step_def;
      });
      row_checks = some (row_checks_from 0 bound.table.header.cells row);
      expects_failure = false;
      expected_error_message = none;
    }

module _ (unicode : Unicode) where
  -- `wordOffset`, from the offset `i` on: the first place of the word that no letter, digit or
  -- underscore stands beside
  unfoldable pub word_offset_from : Text → ℕ → Text → Text → Option ℕ
  unfolding starts_with
  word_offset_from haystack i [] word =
      if starts_with [] word
        && not (unicode.word_behind haystack i)
        && not (unicode.word_ahead haystack (i + length word))
      then some i
      else none
  word_offset_from haystack i (c ∷ s) word =
      let rest = word_offset_from haystack (suc i) s word in
      if starts_with (c ∷ s) word
        && not (unicode.word_behind haystack i)
        && not (unicode.word_ahead haystack (i + length word))
      then some i
      else rest

  unfoldable pub word_offset : Text → Text → Option ℕ
  unfolding word_offset_from
  word_offset haystack word = word_offset_from haystack 0 haystack word

  -- the offsets of all header cells, or `none` if one is below 0
  unfoldable pub word_offsets : Text → List Text → Option (List (ℕ × Text))
  unfolding word_offset
  word_offsets haystack [] = some []
  word_offsets haystack (cell ∷ cells) = elim (word_offset haystack cell) [
    | none ↦ none
    | some i ↦ elim (word_offsets haystack cells) [
      | none ↦ none
      | some rest ↦ some ((i, cell) ∷ rest)
    ]
  ]

  abbrev pub header_span : Text → Block → ℕ × Text → Planned Span
  header_span source above (i, cell) = lifted (lift_span source above i (i + length cell))

  -- a table below a block with a text and steps
  unfoldable pub bind_table : Text → Entry → Table → Planned (Option Bound)
  unfolding word_offsets lift_span last_step each
  bind_table source above t = elim (block_text above.block) [
    | none ↦ pure none
    | some (text, segment_map) ↦ elim (last_step above.steps) [
      | none ↦ pure none
      | some step ↦ elim (word_offsets text t.header.cells) [
        | none ↦ pure none
        | some offsets ↦ do
          spans ← each (header_span source above.block) offsets
          pure (some (record { table = t; step = step; header_spans = spans }))
      ]
    ]
  ]

  abbrev pub table_of : Block → Option Table
  table_of (table t) = some t
  table_of _ = none

  -- `detectHeaderBound`, behind the entry `above`
  unfoldable pub detect_header_bound : Text → Entry → List Entry → Planned (Option Bound)
  unfolding bind_table
  detect_header_bound source above [] = pure none
  detect_header_bound source above (here ∷ entries) = elim (table_of here.block) [
    | none ↦ detect_header_bound source here entries
    | some t ↦ do
      b ← bind_table source above t
      elim b [ some bound ↦ pure (some bound) | none ↦ detect_header_bound source here entries ]
  ]
