-- ===== src/Execute.antt =====
-- typescript/packages/core/src/execute.ts: running one example of a plan. Awaited calls are calls: an
-- example's steps run one after the other.
pub mod Failures
pub mod Sensors
pub mod States
pub mod Runs
pub mod Rows
pub mod Passing
mod Tests
use varar.Base.{
  ℕ, zero, suc, ◌+◌, ◌-◌, length, Bool, true, false, not, ◌&&◌, ◌||◌, List, [], ◌∷◌, ◌++◌, Option,
  none, some, if◌then◌else◌,
}
use varar.Text.{Text, text_eq, includes}
use varar.Value.{Value, undefined}
use varar.Registry.{StepKind, stimulus, sensor}
use varar.Cells.{RowCheck, CellDiff, Runtime, row_missing, is_null, compare_row}
use varar.Plan.{PlannedStep, PlannedExample}
use varar.Execute.Failures.{
  Mismatch, Thrown, mismatched, cell_mismatch, return_shape, unexpected_pass, user, Failure,
  augment, message,
}
use varar.Execute.Sensors.{Verdict, agreed, rejected, failing, is_undefined, judge, extra_args}

-- what an awaited call ends with
pub data Completion : Type 0 where
  returned : Value → Completion
  threw : Value → Completion

-- The author's code: the handlers, and the context factory `createContext`. Both may change the world
-- around them.
pub record Host (W : Type 0) : Type 0 where
  pub call : (handler : ℕ) → (state : Value) → (args : List Value) → W → Completion × W
  pub create_context : Text → W → Completion × W

pub data Outcome : Type 0 where
  pass : Outcome
  fail : Failure → Outcome

-- the fields of `StepObservation` that vary within an example
pub record StepObservation : Type 0 where
  pub ordinal : ℕ
  pub step_file : Text
  pub outcome : Outcome

-- the variables of the example's run, with what the observer was told, and the world
pub record Run (W : Type 0) : Type 0 where
  pub states : List (Text × Value)
  pub last_return : Value
  pub thrown : Option Failure
  pub observed : List StepObservation
  pub world : W

-- `stateByFile.get(file)`, and `none` where it has no entry
unfoldable pub state_of : Text → List (Text × Value) → Option Value
unfolding text_eq
state_of file [] = none
state_of file ((f, v) ∷ states) = if text_eq f file then some v else state_of file states

-- `stateByFile.set(file, v)`
unfoldable pub set_state : Text → Value → List (Text × Value) → List (Text × Value)
unfolding text_eq
set_state file v [] = (file, v) ∷ []
set_state file v ((f, w) ∷ states) =
    if text_eq f file then (f, v) ∷ states else (f, w) ∷ set_state file v states

-- The loop ends with the variables, or the context factory throws, which nothing catches.
pub data Ended (W : Type 0) : Type 0 where
  ended : Run W → Ended W
  aborted : Value → Run W → Ended W

-- `thrown === undefined` holds after an author's `throw undefined` too.
abbrev pub as_thrown : Failure → Option Failure
as_thrown f = elim f.error [ user v ↦ if is_undefined v then none else some f | other ↦ some f ]

-- how one step leaves the loop, or goes on
pub data Next (W : Type 0) : Type 0 where
  goes_on breaks : Run W → Next W

pub data Entered (W : Type 0) : Type 0 where
  entered : Value → Run W → Entered W
  no_context : Value → Run W → Entered W

abbrev pub last_of : List PlannedStep → Option PlannedStep
last_of [] = none
last_of (s ∷ []) = some s
last_of (s ∷ t ∷ steps) = last_of (t ∷ steps)

abbrev pub or_empty : Option (List RowCheck) → List RowCheck
or_empty none = []
or_empty (some checks) = checks

-- the error for an example that should have failed
abbrev pub unexpected : Option PlannedStep → Failure
unexpected none = record { error = unexpected_pass; anchor = none; doc_path = none }
unexpected (some last) = augment unexpected_pass last

abbrev pub has_checks : Option (List RowCheck) → Bool
has_checks none = false
has_checks (some checks) = true

module _ {W : Type 0} (runtime : Runtime) (host : Host W) (source : Text) where
  abbrev pub file_of : PlannedStep → Text
  file_of step = step.step_def.expression_source_file

  -- the `catch` block, and `break`
  unfoldable pub fail_step : ℕ → PlannedStep → Thrown → Run W → Run W
  unfolding augment
  fail_step i step e run =
      let failure = augment e step in
      record run {
        thrown = as_thrown failure;
        observed =
            run.observed
            ++ record { ordinal = i + 1; step_file = file_of step; outcome = fail failure } ∷ [];
      }

  -- `state = returned` after a stimulus that returned something
  abbrev pub next_states : PlannedStep → Value → List (Text × Value) → List (Text × Value)
  next_states step v states = elim step.step_def.kind [
    | none ↦ states
    | some k ↦ elim k [
      | stimulus ↦ if is_undefined v || is_null v then states else set_state (file_of step) v states
      | sensor ↦ states
    ]
  ]

  -- behind the `try` block
  unfoldable pub pass_step : ℕ → PlannedStep → Value → Run W → Run W
  unfolding set_state
  pass_step i step v run = record run {
    states = next_states step v run.states;
    observed =
        run.observed ++ record { ordinal = i + 1; step_file = file_of step; outcome = pass } ∷ [];
  }

  -- behind the call of the handler: the `catch` block, or the observer's 'pass'
  unfoldable pub settled : ℕ → PlannedStep → Value → Run W → Verdict → Next W
  unfolding fail_step pass_step
  settled i step v run (rejected e) = breaks (fail_step i step (mismatched e) run)
  settled i step v run agreed = goes_on (pass_step i step v run)

  -- what the call ended with
  unfoldable pub called : Bool → ℕ → PlannedStep → Run W → Completion × W → Next W
  unfolding settled judge
  called bound i step run (threw e, world) =
      breaks (fail_step i step (user e) (record run { world = world }))
  called bound i step run (returned v, world) =
      settled i step v (record run { last_return = v; world = world })
        (judge runtime source bound step v)

  -- the handler's call in the state `v`
  unfoldable pub call_step : Bool → ℕ → PlannedStep → Value → Run W → Next W
  unfolding called extra_args
  call_step bound i step v run =
      called bound i step run
        (host.call step.step_def.handler v (step.args ++ extra_args step) run.world)

  unfoldable pub created : PlannedStep → Run W → Completion × W → Entered W
  unfolding set_state
  created step run (threw e, world) = no_context e (record run { world = world })
  created step run (returned v, world) =
      entered v (record run { states = set_state (file_of step) v run.states; world = world })

  -- the state of the step's file, made by the context factory on the first use
  unfoldable pub enter : PlannedStep → Run W → Entered W
  unfolding state_of created
  enter step run = elim (state_of (file_of step) run.states) [
    | some v ↦ entered v run
    | none ↦ created step run (host.create_context (file_of step) run.world)
  ]

  -- the loop over the steps, from step `i` on
  unfoldable pub run_steps : Bool → ℕ → List PlannedStep → Run W → Ended W
  unfolding enter call_step
  run_steps bound i [] run = ended run
  run_steps bound i (step ∷ steps) run = elim (enter step run) [
    | no_context e r ↦ aborted e r
    | entered v r ↦ elim (call_step bound i step v r) [
      | breaks r' ↦ ended r'
      | goes_on r' ↦ run_steps bound (i + 1) steps r'
    ]
  ]

  -- The row checks of a header-bound row, behind the loop; `last` is its last step, and an example has
  -- a step.
  abbrev pub row_error : Value → List RowCheck → Option Mismatch
  row_error v checks =
      if is_undefined v
      then some (return_shape row_missing)
      else elim (failing (compare_row runtime v checks)) [
        | [] ↦ none
        | d ∷ ds ↦ some (cell_mismatch (d ∷ ds))
      ]

  unfoldable pub check_row : List RowCheck → List PlannedStep → Option PlannedStep → Run W → Run W
  unfolding failing compare_row fail_step
  check_row checks steps none run = run
  check_row [] steps (some last) run = run
  check_row (c ∷ checks) steps (some last) run = elim run.thrown [
    | some f ↦ run
    | none ↦ elim (row_error run.last_return (c ∷ checks)) [
      | none ↦ run
      | some e ↦ fail_step (length steps - 1) last (mismatched e) run
    ]
  ]

  -- the outcome of the example, from what was thrown
  unfoldable pub verdict_of : (Value → Text) → PlannedExample → Option Failure → Outcome
  unfolding augment message includes
  verdict_of user_message ex thrown =
      if ex.expects_failure
      then elim thrown [
        | none ↦ fail (unexpected (last_of ex.steps))
        | some f ↦ elim ex.expected_error_message [
          | none ↦ pass
          | some m ↦ if includes (message user_message f.error) m then pass else fail f
        ]
      ]
      else elim thrown [ none ↦ pass | some f ↦ fail f ]

  abbrev pub start : W → Run W
  start world = record {
    states = [];
    last_return = undefined;
    thrown = none;
    observed = [];
    world = world;
  }

  unfoldable pub finish_example : (Value → Text) → PlannedExample → Ended W → Outcome × Run W
  unfolding check_row verdict_of
  finish_example user_message ex (aborted e run) =
      (fail (record { error = user e; anchor = none; doc_path = none }), run)
  finish_example user_message ex (ended run) =
      let done = check_row (or_empty ex.row_checks) ex.steps (last_of ex.steps) run in
      (verdict_of user_message ex done.thrown, done)

  -- the function that `executePlan` hands to the sink for one example
  unfoldable pub run_example : (Value → Text) → PlannedExample → W → Outcome × Run W
  unfolding run_steps finish_example
  run_example user_message ex world =
      finish_example user_message ex (run_steps (has_checks ex.row_checks) 0 ex.steps (start world))
