-- ===== src/Execute/Failures.antt =====
-- What a step throws, and what `augmentStack` attaches to it. The stack frame that it writes into
-- the error's stack trace is left out.
use varar.Base.{Bool, true, false, List, [], ◌∷◌, ◌++◌, map, Option, none, some, if◌then◌else◌}
use varar.Text.{Text, codes, decimal, join_with}
use varar.Span.{Span}
use varar.Value.{Value, undefined, null, bool, num, str, function}
use varar.Cells.{
  CellDiff, ShapeError, not_a_table, row_count, mixed_rows, column_count, missing_column,
  not_a_string, stimulus_result, no_slots, slots_missing, slots_no_array, slots_count, row_missing,
  unknown_kind, is_object_type,
}
use varar.Plan.{PlannedStep}

-- the errors of a comparison
pub data Mismatch : Type 0 where
  cell_mismatch : List CellDiff → Mismatch
  return_shape : ShapeError → Mismatch

-- The errors of the executor, and whatever the author's code throws.
pub data Thrown : Type 0 where
  mismatched : Mismatch → Thrown
  unexpected_pass : Thrown
  user : Value → Thrown

-- a thrown error with the two symbols that are attached to it
pub record Failure : Type 0 where
  pub error : Thrown
  pub anchor : Option Span
  pub doc_path : Option Text

unfoldable pub first_failing : List CellDiff → Option Span
first_failing [] = none
first_failing (c ∷ cells) = let rest = first_failing cells in if c.ok then rest else some c.span

-- `failureAnchor`
unfoldable pub failure_anchor : Thrown → Span → Span
unfolding first_failing
failure_anchor (mismatched (cell_mismatch cells)) fallback = elim (first_failing cells) [
  | none ↦ fallback
  | some s ↦ s
]
failure_anchor _ fallback = fallback

-- Symbols can be attached to objects only.
abbrev takes_symbols : Thrown → Bool
takes_symbols (user null) = false
takes_symbols (user v) = is_object_type v
takes_symbols _ = true

-- `augmentStack`
unfoldable pub augment : Thrown → PlannedStep → Failure
unfolding failure_anchor
augment e step =
    if takes_symbols e
    then record {
      error = e;
      anchor = some (failure_anchor e step.match_span);
      doc_path = step.doc_path;
    }
    else record { error = e; anchor = none; doc_path = none }

abbrev type_of : Value → Text
type_of undefined = codes "undefined"
type_of (bool b) = codes "boolean"
type_of (num n) = codes "number"
type_of (str s) = codes "string"
type_of (function i) = codes "function"
type_of _ = codes "object"

-- the messages of `ReturnShapeError`
unfoldable pub shape_message : ShapeError → Text
unfolding decimal
shape_message (not_a_table v) = codes "expected a table (array of rows), got " ++ type_of v
shape_message (row_count n m) = codes "expected " ++ decimal n ++ codes " row(s), got " ++ decimal m
shape_message mixed_rows = codes "table rows must be all arrays or all objects"
shape_message (column_count i n m) =
    codes "row "
    ++ decimal i
    ++ codes ": expected "
    ++ decimal n
    ++ codes " column(s), got "
    ++ decimal m
shape_message (missing_column i c) =
    codes "row " ++ decimal i ++ codes ": missing column \"" ++ c ++ codes "\""
shape_message (not_a_string v) = codes "expected a doc string (string), got " ++ type_of v
shape_message stimulus_result =
    codes "a stimulus must return the complete next state, or nothing to leave it unchanged"
shape_message no_slots =
    codes "this sensor has no parameters, data table or doc string — nothing to compare a return "
    ++ codes "value against (throw to fail, return nothing to pass)"
shape_message (slots_missing n) =
    codes "a sensor with "
    ++ decimal n
    ++ codes " slot(s) must return one value per slot, got nothing"
shape_message (slots_no_array n v) =
    codes "a sensor with "
    ++ decimal n
    ++ codes " slots must return an array of "
    ++ decimal n
    ++ codes " values, got "
    ++ type_of v
shape_message (slots_count n m) =
    codes "sensor return must have " ++ decimal n ++ codes " element(s), got " ++ decimal m
shape_message row_missing =
    codes
      "a header-bound row step must return a row object with one value per bound cell, got nothing"
shape_message unknown_kind = codes "unknown step kind: undefined"

abbrev cell_message : CellDiff → Text
cell_message c = c.column ++ codes ": expected " ++ c.expected ++ codes " but was " ++ c.actual

-- `thrown instanceof Error ? thrown.message : String(thrown)`; for the author's values it is a
-- parameter
unfoldable pub message : (Value → Text) → Thrown → Text
unfolding join_with shape_message
message user_message (mismatched (cell_mismatch cells)) =
    join_with (codes "; ") (map cell_message cells)
message user_message (mismatched (return_shape e)) = shape_message e
message user_message unexpected_pass = codes "expected the example to fail, but it passed"
message user_message (user v) = user_message v
