-- ===== src/Execute/Sensors.antt =====
-- How the executor judges what a step returns (typescript/packages/core/src/execute.ts).
pub mod Sound
use varar.Base.{
  ℕ, zero, suc, ◌+◌, Bool, true, false, not, ◌&&◌, ◌||◌, List, [], ◌∷◌, ◌++◌, map, Option, none,
  some, ◌==◌, if◌then◌else◌, length, get_elem?, take,
}
use varar.Text.{Text, slice}
use varar.Span.{Span}
use varar.Ast.{Table, Row}
use varar.Value.{Value, undefined, null, str, array, Values, nil, cons, to_list, from_list}
use varar.Registry.{StepKind, stimulus, sensor}
use varar.Cells.{
  CellDiff, Runtime, ShapeError, stimulus_result, no_slots, slots_missing, slots_no_array,
  slots_count, unknown_kind, Checked, checked, misshaped, is_object_type, is_null,
}
use varar.Cells.Tables.{compare_table}
use varar.Cells.Params.{compare_params}
use varar.Cells.DocStrings.{compare_doc_string}
use varar.Plan.{PlannedStep, DocString}
use varar.Execute.Failures.{Mismatch, cell_mismatch, return_shape}

abbrev pub is_undefined : Value → Bool
is_undefined undefined = true
is_undefined _ = false

-- the `try` block behind the call: it runs through, or throws
pub data Verdict : Type 0 where
  agreed : Verdict
  rejected : Mismatch → Verdict

-- `filter((d) => !d.ok)`
unfoldable pub failing : List CellDiff → List CellDiff
failing [] = []
failing (d ∷ ds) = let rest = failing ds in if d.ok then rest else d ∷ rest

-- `if (bad.length > 0) throw new CellMismatchError(bad)`
abbrev pub mismatch : List CellDiff → Verdict
mismatch [] = agreed
mismatch (d ∷ ds) = rejected (cell_mismatch (d ∷ ds))

infixl 5 ◌>>◌
abbrev pub ◌>>◌ : Verdict → Verdict → Verdict
agreed >> v = v
rejected e >> v = rejected e

abbrev text_array : List Text → Value
text_array cells = array 0 (from_list (map str cells))

-- A data table as rows of texts, the header first. The identities of these new arrays are 0.
unfoldable pub table_value : Table → Value
table_value t =
    array 0 (from_list (text_array t.header.cells ∷ map (λ r. text_array r.cells) t.rows))

-- `extra`: the trailing data table or doc string
abbrev pub trailing_args : Option Table → Option DocString → List Value
trailing_args (some t) d = table_value t ∷ []
trailing_args none (some d) = str d.content ∷ []
trailing_args none none = []

unfoldable pub extra_args : PlannedStep → List Value
unfolding table_value
extra_args step = trailing_args step.data_table step.doc_string

abbrev pub slot_at : List Value → ℕ → Value
slot_at slots i = elim (get_elem? slots i) [ none ↦ undefined | some v ↦ v ]

abbrev pub table_verdict : Checked (List CellDiff) → Verdict
table_verdict (misshaped e) = rejected (return_shape e)
table_verdict (checked ds) = mismatch (failing ds)

abbrev pub doc_string_verdict : Checked (Option CellDiff) → Verdict
doc_string_verdict (misshaped e) = rejected (return_shape e)
doc_string_verdict (checked none) = agreed
doc_string_verdict (checked (some d)) = rejected (cell_mismatch (d ∷ []))

module _ (runtime : Runtime) (source : Text) where
  -- the inline parameters: the first slots against the captured arguments
  unfoldable pub judge_params : PlannedStep → List Value → Verdict
  unfolding failing compare_params
  judge_params step slots = mismatch (
      failing (
        compare_params runtime (take (length step.args) slots) step.args step.param_spans
          (map (λ s. slice source s.start_offset s.end_offset) step.param_spans) step.formats))

  -- the trailing data table or doc string against the value of the last slot
  unfoldable pub judge_trailing : Option Table → Option DocString → Value → Verdict
  unfolding failing compare_table compare_doc_string
  judge_trailing (some t) d v = table_verdict (compare_table runtime v t)
  judge_trailing none (some d) v =
      doc_string_verdict (compare_doc_string runtime v d.content d.span)
  judge_trailing none none v = agreed

  unfoldable pub judge_slots : PlannedStep → List Value → Verdict
  unfolding judge_params judge_trailing
  judge_slots step slots =
      judge_params step slots
      >> judge_trailing step.data_table step.doc_string (slot_at slots (length step.args))

  -- two or more slots: a positional array, one value per slot
  unfoldable pub judge_many : PlannedStep → ℕ → Value → Verdict
  unfolding judge_slots
  judge_many step slot_count (array i vs) =
      if not (length (to_list vs) == slot_count)
      then rejected (return_shape (slots_count slot_count (length (to_list vs))))
      else judge_slots step (to_list vs)
  judge_many step slot_count v = rejected (return_shape (slots_no_array slot_count v))

  -- one slot or more
  unfoldable pub judge_slotted : PlannedStep → ℕ → Value → Verdict
  unfolding judge_many
  judge_slotted step slot_count v =
      if is_undefined v
      then rejected (return_shape (slots_missing slot_count))
      else if slot_count == 1
      then judge_slots step (v ∷ [])
      else judge_many step slot_count v

  unfoldable pub judge_sensor : PlannedStep → Value → Verdict
  unfolding judge_slotted extra_args
  judge_sensor step v =
      let slot_count = length step.args + length (extra_args step) in
      if slot_count == 0
      then (if is_undefined v then agreed else rejected (return_shape no_slots))
      else judge_slotted step slot_count v

  -- a stimulus returns nothing, or an object
  abbrev judge_stimulus : Value → Verdict
  judge_stimulus v =
      if is_undefined v || is_null v || is_object_type v
      then agreed
      else rejected (return_shape stimulus_result)

  -- `bound` is whether the example has row checks: its sensors are compared behind the loop
  unfoldable pub judge : (bound : Bool) → PlannedStep → Value → Verdict
  unfolding judge_sensor
  judge bound step v = elim step.step_def.kind [
    | none ↦ rejected (return_shape unknown_kind)
    | some k ↦ elim k [
      | stimulus ↦ judge_stimulus v
      | sensor ↦ if bound then agreed else judge_sensor step v
    ]
  ]
