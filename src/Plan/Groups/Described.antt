-- ===== src/Plan/Groups/Described.antt =====
-- The example that a run of paragraphs forms, described by the paragraphs of the run at once.
use varar.Base.{
  ℕ, Bool, false, ◌||◌, List, [], ◌∷◌, ◌++◌, append-nil, append_assoc, any, Option, none, some, ◌≡◌,
  refl, ap, ◌∙◌, Bool-cases, inl, inr, if◌then◌else◌, arith,
}
use varar.Text.{Text}
use varar.Span.{span_from_offsets}
use varar.Plan.{PlannedStep, PlannedExample}
use varar.Plan.Candidates.{StepsUnit}
use varar.Plan.Merging.{MergedExample, first_message, start_merged, merge_into, finish_merged}
use varar.Plan.Groups.{Group, table, run, bound_examples, merge_all, merged_examples}

-- where the last paragraph ends, behind one that ends at `end`
abbrev end_behind : ℕ → List StepsUnit → ℕ
end_behind end [] = end
end_behind end (u ∷ units) = end_behind u.span.end_offset units

-- the steps of all paragraphs, in order
abbrev all_steps : List StepsUnit → List PlannedStep
all_steps [] = []
all_steps (u ∷ units) = u.steps ++ all_steps units

-- `m`, or the first message of a paragraph that expects a failure
abbrev message_from : Option Text → List StepsUnit → Option Text
message_from (some m) units = some m
message_from none [] = none
message_from none (u ∷ units) =
    message_from (if u.expects_failure then u.expected_error_message else none) units

module _ (source : Text) where
  abbrev example_with :
      Text → List Text → ℕ → ℕ → List PlannedStep → Bool → Option Text → PlannedExample
  example_with name scope_stack start end steps expects_failure message = record {
    name = name;
    scope_stack = scope_stack;
    span = span_from_offsets source start end;
    steps = steps;
    header_binding = none;
    row_checks = none;
    expects_failure = expects_failure;
    expected_error_message = message;
  }

  -- The name and the headings are those of the first paragraph. The example reaches from its start to the
  -- end of the last one, and has the steps of all. It expects a failure if one of them does, with the
  -- first message.
  abbrev pub run_example : StepsUnit → List StepsUnit → PlannedExample
  run_example u units =
      example_with u.name u.scope_stack u.span.start_offset (end_behind u.span.end_offset units)
        (u.steps ++ all_steps units) (u.expects_failure || any (λ v. v.expects_failure) units)
        (message_from u.expected_error_message units)

  -- One for each row of a table, and one for each run.
  abbrev pub examples_of : List Group → List PlannedExample
  examples_of [] = []
  examples_of (table ex bound ∷ groups) = bound_examples ex bound ++ examples_of groups
  examples_of (run u units ∷ groups) = run_example u units ∷ examples_of groups

  abbrev merged_with : MergedExample → List StepsUnit → PlannedExample
  merged_with merged units =
      example_with merged.name merged.scope_stack merged.start_offset
        (end_behind merged.end_offset units) (merged.steps ++ all_steps units)
        (merged.expects_failure || any (λ v. v.expects_failure) units)
        (message_from merged.expected_error_message units)

  message_from-nil : (m : Option Text) → message_from m [] ≡ m
  message_from-nil none = refl
  message_from-nil (some t) = refl

  later_message :
      (m : Option Text) (u : StepsUnit) (units : List StepsUnit)
      → message_from
          (if u.expects_failure then first_message m u.expected_error_message else m)
          units
        ≡ message_from m (u ∷ units)
  later_message none u units = refl
  later_message (some t) u units = elim (Bool-cases u.expects_failure) [
    | inl e ↦ rw e refl
    | inr e ↦ rw e refl
  ]

  or_assoc : (a b c : Bool) → ((a || b) || c) ≡ (a || (b || c))
  or_assoc a b c = ground arith

  merge_into_lem :
      (merged : MergedExample) (u : StepsUnit) (units : List StepsUnit)
      → merged.name_from_reference ≡ false
      → merged_with (merge_into merged u false) units ≡ merged_with merged (u ∷ units)
  unfolding merge_into
  merge_into_lem merged u units h =
      let steps = append_assoc merged.steps u.steps (all_steps units) in
      let fails =
        or_assoc merged.expects_failure u.expects_failure (any (λ v. v.expects_failure) units) in
      let message = later_message merged.expected_error_message u units in rw h cc

  keeps_name :
      (merged : MergedExample) (u : StepsUnit)
      → merged.name_from_reference ≡ false
      → (merge_into merged u false).name_from_reference ≡ false
  unfolding merge_into
  keeps_name merged u h = rw h refl

  merge_all_lem :
      (merged : MergedExample) (units : List StepsUnit)
      → merged.name_from_reference ≡ false
      → finish_merged source (merge_all merged units) ≡ merged_with merged units
  unfolding finish_merged
  merge_all_lem merged [] h =
      let steps = append-nil merged.steps in
      let message = message_from-nil merged.expected_error_message in
      let fails : (merged.expects_failure || false) ≡ merged.expects_failure = ground arith in cc
  merge_all_lem merged (u ∷ units) h =
      merge_all_lem (merge_into merged u false) units (keeps_name merged u h)
      ∙ merge_into_lem merged u units h

  run_lem :
      (u : StepsUnit) (units : List StepsUnit)
      → finish_merged source (merge_all (start_merged u) units) ≡ run_example u units
  unfolding start_merged
  run_lem u units = merge_all_lem (start_merged u) units refl

  pub merged_examples_lem :
      (groups : List Group) → merged_examples source groups ≡ examples_of groups
  merged_examples_lem [] = refl
  merged_examples_lem (table ex bound ∷ groups) =
      ap (λ es. bound_examples ex bound ++ es) (merged_examples_lem groups)
  merged_examples_lem (run u units ∷ groups) =
      ap (λ e. e ∷ merged_examples source groups) (run_lem u units)
      ∙ ap (λ es. run_example u units ∷ es) (merged_examples_lem groups)
