-- ===== src/Execute/Tests.antt =====
-- Runs of execute.ts, and its theorems at a concrete example.
use varar.Base.{ℕ, zero, suc, ◌+◌, false, List, [], ◌∷◌, none, some, ◌≡◌, refl, ◌↔◌}
use varar.Text.{Text, codes, decimal}
use varar.Span.{Span}
use varar.Value.{Value, undefined, num, object, end, field}
use varar.DeepEqual.{deep_equal}
use varar.Registry.{StepKind, stimulus, sensor, StepRegistration}
use varar.Cells.{Runtime}
use varar.Plan.{PlannedStep, PlannedExample}
use varar.Execute.Sensors.{agreed, judge_sensor}
use varar.Execute.Sensors.Sound.{Spreads, SlotsMatch, slot_count, judge_sensor_sound}
use varar.Execute.{
  Completion, returned, threw, Host, pass, start, entered, enter, call_step, run_example,
}
use varar.Execute.States.{KeepsApart, call_step-KeepsApart}
use varar.Execute.Runs.{ThrowsValues}
use varar.Execute.Passing.{RunsClean, run_example-pass_iff, undefined_thrown-pass}

abbrev to_string : Value → Text
to_string (num n) = decimal n
to_string _ = codes "?"

abbrev runtime : Runtime
runtime = record {
  to_string = to_string;
  to_json = λ v. none;
  other_property = λ v k. none;
  format = λ i v. none;
}

abbrev source : Text
source = codes "There are 5"

abbrev span : Span
span = record {
  start_offset = 0;
  end_offset = 11;
  start_line = 1;
  start_col = 1;
  end_line = 1;
  end_col = 12;
}

abbrev five_span : Span
five_span = record {
  start_offset = 10;
  end_offset = 11;
  start_line = 1;
  start_col = 11;
  end_line = 1;
  end_col = 12;
}

abbrev definition : ℕ → StepKind → StepRegistration
definition h k = record {
  expression = codes "There are {int}";
  expression_source_file = codes "a.ts";
  expression_source_line = 1;
  handler = h;
  compiled = 0;
  kind = some k;
}

abbrev step : ℕ → StepKind → List Value → PlannedStep
step h k args = record {
  text = source;
  match_span = span;
  doc_path = none;
  param_spans = five_span ∷ [];
  param_texts = codes "5" ∷ [];
  param_inner_spans = five_span ∷ [];
  step_def = definition h k;
  args = args;
  formats = none ∷ [];
  data_table = none;
  doc_string = none;
}

-- Handler 0 returns a new state, handler 1 throws `undefined`, and the others return 5.
abbrev answer : ℕ → Completion
answer zero = returned (object 1 (field (codes "count") (num 5) end))
answer (suc zero) = threw undefined
answer h = returned (num 5)

abbrev host : Host ℕ
host = record {
  call = λ h state args calls. (answer h, calls + 1);
  create_context = λ file calls. (returned (object 0 end), calls);
}

-- the same without handler 1
abbrev quiet_answer : ℕ → Completion
quiet_answer zero = answer 0
quiet_answer h = returned (num 5)

abbrev quiet_host : Host ℕ
quiet_host = record {
  call = λ h state args calls. (quiet_answer h, calls + 1);
  create_context = λ file calls. (returned (object 0 end), calls);
}

quiet_host-ThrowsValues : ThrowsValues quiet_host
quiet_host-ThrowsValues zero state args world e = cc
quiet_host-ThrowsValues (suc h) state args world e = cc

abbrev two_steps : List PlannedStep
two_steps = step 0 stimulus [] ∷ step 2 sensor (num 5 ∷ []) ∷ []

abbrev example : List PlannedStep → PlannedExample
example steps = record {
  name = codes "counting";
  scope_stack = [];
  span = span;
  steps = steps;
  header_binding = none;
  row_checks = none;
  expects_failure = false;
  expected_error_message = none;
}

abbrev message_of : Value → Text
message_of v = codes "?"

five_accepted : judge_sensor runtime source (step 2 sensor (num 5 ∷ [])) (num 5) ≡ agreed
unfolding judge_sensor deep_equal
five_accepted = refl

judge_sensor_sound_example :
    (slots : List Value) × Spreads runtime source
      (slot_count runtime source (step 2 sensor (num 5 ∷ [])))
      (num 5)
      slots
    × SlotsMatch runtime source (step 2 sensor (num 5 ∷ [])) slots
judge_sensor_sound_example =
    judge_sensor_sound runtime source (step 2 sensor (num 5 ∷ [])) (num 5) five_accepted

call_step-KeepsApart_example :
    KeepsApart runtime quiet_host source
      (step 0 stimulus [])
      (start runtime quiet_host source 0)
      (codes "b.ts")
      (call_step runtime quiet_host source false 0
        (step 0 stimulus [])
        (object 0 end)
        (start runtime quiet_host source 0))
call_step-KeepsApart_example =
    call_step-KeepsApart runtime quiet_host source false 0 (step 0 stimulus []) (object 0 end)
      (start runtime quiet_host source 0) (codes "b.ts")

run_example-pass_iff_example :
    ((run_example runtime quiet_host source message_of (example two_steps) 0).0 ≡ pass)
    ↔ RunsClean runtime quiet_host source message_of (example two_steps) 0
run_example-pass_iff_example =
    run_example-pass_iff runtime quiet_host source message_of quiet_host-ThrowsValues
      (example two_steps) 0 refl

two_steps_pass : (run_example runtime quiet_host source message_of (example two_steps) 0).0 ≡ pass
unfolding run_example deep_equal
two_steps_pass = refl

-- The handlers of both steps were called.
two_calls : (run_example runtime quiet_host source message_of (example two_steps) 0).1.world ≡ 2
unfolding run_example deep_equal
two_calls = refl

first_entered :
    enter runtime host source (step 1 stimulus []) (start runtime host source 0)
    ≡ entered
        (object 0 end)
        (record (start runtime host source 0) { states = (codes "a.ts", object 0 end) ∷ [] })
unfolding enter
first_entered = refl

-- The second step, which would return 5 for 6, is never run.
undefined_thrown-pass_example :
    (run_example runtime host source message_of
      (example (step 1 stimulus [] ∷ step 2 sensor (num 6 ∷ []) ∷ []))
      0).0
    ≡ pass
undefined_thrown-pass_example =
    undefined_thrown-pass runtime host source message_of
      (example (step 1 stimulus [] ∷ step 2 sensor (num 6 ∷ []) ∷ [])) (step 1 stimulus [])
      (step 2 sensor (num 6 ∷ []) ∷ []) (object 0 end)
      (record (start runtime host source 0) { states = (codes "a.ts", object 0 end) ∷ [] }) 0 1 refl
      refl refl first_entered refl
