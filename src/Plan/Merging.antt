-- ===== src/Plan/Merging.antt =====
-- Phase 2 of `plan`: adjacent candidates are grouped into examples.
use varar.Base.{
  ℕ, Bool, true, false, not, ◌&&◌, ◌||◌, List, [], ◌∷◌, ◌++◌, Option, none, some, if◌then◌else◌,
}
use varar.Text.{Text}
use varar.Span.{span_from_offsets}
use varar.Plan.{PlannedStep, PlannedExample}
use varar.Plan.Candidates.{StepsUnit, ReferenceUnit}

pub record MergedExample : Type 0 where
  pub name : Text
  pub name_from_reference : Bool
  pub scope_stack : List Text
  pub start_offset : ℕ
  pub end_offset : ℕ
  pub steps : List PlannedStep
  pub expects_failure : Bool
  pub expected_error_message : Option Text

unfoldable pub start_merged : StepsUnit → MergedExample
start_merged unit = record {
  name = unit.name;
  name_from_reference = false;
  scope_stack = unit.scope_stack;
  start_offset = unit.span.start_offset;
  end_offset = unit.span.end_offset;
  steps = unit.steps;
  expects_failure = unit.expects_failure;
  expected_error_message = unit.expected_error_message;
}

-- the first message that is seen stays
abbrev pub first_message : Option Text → Option Text → Option Text
first_message none m = m
first_message (some t) m = some t

unfoldable pub merge_into : MergedExample → StepsUnit → (from_reference : Bool) → MergedExample
merge_into merged unit from_reference =
    let takes_name = merged.name_from_reference && not from_reference in
    record {
      name = if takes_name then unit.name else merged.name;
      name_from_reference = if takes_name then false else merged.name_from_reference;
      scope_stack = if takes_name then unit.scope_stack else merged.scope_stack;
      start_offset = merged.start_offset;
      end_offset = unit.span.end_offset;
      steps = merged.steps ++ unit.steps;
      expects_failure = merged.expects_failure || unit.expects_failure;
      expected_error_message =
          if unit.expects_failure
          then first_message merged.expected_error_message unit.expected_error_message
          else merged.expected_error_message;
    }

-- the examples so far, and the open one
pub record Grouping : Type 0 where
  pub examples : List PlannedExample
  pub opened : Option MergedExample

abbrev pub no_examples : Grouping
no_examples = record { examples = []; opened = none }

module _ (source : Text) where
  unfoldable pub finish_merged : MergedExample → PlannedExample
  unfolding span_from_offsets
  finish_merged merged = record {
    name = merged.name;
    scope_stack = merged.scope_stack;
    span = span_from_offsets source merged.start_offset merged.end_offset;
    steps = merged.steps;
    header_binding = none;
    row_checks = none;
    expects_failure = merged.expects_failure;
    expected_error_message = merged.expected_error_message;
  }

  unfoldable pub flush : Grouping → Grouping
  unfolding finish_merged
  flush g = elim g.opened [
    | none ↦ g
    | some merged ↦ record { examples = g.examples ++ finish_merged merged ∷ []; opened = none }
  ]

  abbrev pub reopened : Grouping → MergedExample → Grouping
  reopened g merged = record g { opened = some merged }

  -- the unit goes on with the open example, or starts a new one
  unfoldable pub group_steps : StepsUnit → Grouping → Grouping
  unfolding flush start_merged merge_into
  group_steps unit g = elim g.opened [
    | none ↦ reopened g (start_merged unit)
    | some merged ↦
        if not unit.preceded_by_delimiter
        then reopened g (merge_into merged unit false)
        else reopened (flush g) (start_merged unit)
  ]

  -- prose closes the open example
  unfoldable pub group_unit : StepsUnit → Grouping → Grouping
  unfolding flush group_steps
  group_unit unit g = if not unit.matched then flush g else group_steps unit g

  unfoldable pub group_rows : List PlannedExample → Grouping → Grouping
  unfolding flush
  group_rows rows g = let closed = flush g in record closed { examples = closed.examples ++ rows }

  abbrev ends_at : ReferenceUnit → MergedExample → MergedExample
  ends_at unit merged = record merged { end_offset = unit.span.end_offset }

  -- an example that opens with a reference
  unfoldable pub opened_by : ReferenceUnit → StepsUnit → MergedExample
  unfolding start_merged
  opened_by unit spliced = record (start_merged spliced) {
    name_from_reference = true;
    scope_stack = unit.scope_stack;
    start_offset = unit.span.start_offset;
    end_offset = unit.span.end_offset;
  }

  -- One spliced unit; `first` is whether it is the first one of its reference.
  unfoldable pub splice : ReferenceUnit → (first : Bool) → StepsUnit → Grouping → Grouping
  unfolding flush merge_into opened_by
  splice unit first spliced g = elim g.opened [
    | none ↦ reopened g (opened_by unit spliced)
    | some merged ↦
        if not first || not unit.preceded_by_delimiter
        then reopened g (ends_at unit (merge_into merged spliced true))
        else reopened (flush g) (opened_by unit spliced)
  ]

  unfoldable pub splice_all : ReferenceUnit → (first : Bool) → List StepsUnit → Grouping → Grouping
  unfolding splice
  splice_all unit first [] g = g
  splice_all unit first (s ∷ spliced) g = splice_all unit false spliced (splice unit first s g)
