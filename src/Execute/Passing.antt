-- ===== src/Execute/Passing.antt =====
-- What an example's outcome says of its steps (typescript/packages/core/src/execute.ts).
use varar.Base.{ℕ, Bool, false, List, ◌∷◌, ◌++◌, Option, none, some, ◌≡◌, ◌↔◌, refl, ap, ◌∙◌, arith}
use varar.Text.{Text}
use varar.Value.{Value, undefined}
use varar.Cells.{Runtime}
use varar.Plan.{PlannedStep, PlannedExample}
use varar.Execute.Failures.{user, Failure, augment}
use varar.Execute.Sensors.{extra_args}
use varar.Execute.{
  threw, Host, pass, Run, fail_step, breaks, called, call_step, entered, enter, run_steps, Ended,
  ended, aborted, check_row, verdict_of, start, or_empty, last_of, has_checks, finish_example,
  run_example,
}
use varar.Execute.Runs.{
  ThrowsValues, Clean, run_steps-Clean, Clean-run_steps, Clean-thrown, run_steps_lem, loop_entered,
  loop_from,
}
use varar.Execute.Rows.{AnswersRow, check_row-thrown, check_row-AnswersRow, check_row-quiet}

module _ {W : Type 0} (runtime : Runtime) (host : Host W) (source : Text)
    (user_message : Value → Text) where
  verdict_of-eq-pass :
      (ex : PlannedExample) (thrown : Option Failure)
      → ex.expects_failure ≡ false
      → verdict_of runtime host source user_message ex thrown ≡ pass
      → thrown ≡ none
  unfolding verdict_of
  verdict_of-eq-pass ex none x e = refl
  verdict_of-eq-pass ex (some f) x e = ground arith

  finish-Clean :
      ThrowsValues host
      → (ex : PlannedExample) (world : W) (x : Ended W)
      → run_steps runtime host source
          (has_checks ex.row_checks)
          0
          ex.steps
          (start runtime host source world)
        ≡ x
      → ex.expects_failure ≡ false
      → (finish_example runtime host source user_message ex x).0 ≡ pass
      → (last : Run W) × Clean runtime host source
          (has_checks ex.row_checks)
          last
          0
          ex.steps
          (start runtime host source world)
        × AnswersRow runtime host source ex.row_checks (last_of ex.steps) last.last_return
  unfolding finish_example
  finish-Clean law ex world (aborted x r) q h e = cc
  finish-Clean law ex world (ended r) q h e =
      let quiet = verdict_of-eq-pass ex _ h e in
      (
        r,
        run_steps-Clean runtime host source (has_checks ex.row_checks) law 0 ex.steps
            (start runtime host source world) r q
            (check_row-thrown runtime host source (or_empty ex.row_checks) ex.steps
              (last_of ex.steps) r quiet),
        check_row-AnswersRow runtime host source ex.row_checks ex.steps (last_of ex.steps) r quiet,
      )

  -- All steps ran, in order, each in the state that its file had, every handler returned a value, and
  -- the value was judged to agree with the document; and the last step of a header-bound row answered
  -- the row.
  abbrev pub RunsClean : PlannedExample → W → Type 0
  RunsClean ex world =
      (last : Run W) × Clean runtime host source (has_checks ex.row_checks) last 0 ex.steps
        (start runtime host source world)
      × AnswersRow runtime host source ex.row_checks (last_of ex.steps) last.last_return

  quiet_verdict :
      (ex : PlannedExample) (x : Option Failure)
      → ex.expects_failure ≡ false
      → x ≡ none
      → verdict_of runtime host source user_message ex x ≡ pass
  unfolding verdict_of
  quiet_verdict ex none h e = rw h refl
  quiet_verdict ex (some f) h e = cc

  finish_quiet :
      (ex : PlannedExample) (run : Run W)
      → ex.expects_failure ≡ false
      → run.thrown ≡ none
      → check_row runtime host source (or_empty ex.row_checks) ex.steps (last_of ex.steps) run ≡ run
      → (finish_example runtime host source user_message ex (ended run)).0 ≡ pass
  unfolding finish_example
  finish_quiet ex run h t q = quiet_verdict ex _ h (ap (λ (r : Run W). r.thrown) q ∙ t)

  RunsClean-pass :
      (ex : PlannedExample) (world : W)
      → ex.expects_failure ≡ false
      → RunsClean ex world
      → (run_example runtime host source user_message ex world).0 ≡ pass
  unfolding run_example
  RunsClean-pass ex world h (last, c, a) =
      let t =
        Clean-thrown runtime host source (has_checks ex.row_checks) last 0 ex.steps _ c refl in
      ap (λ (x : Ended W). (finish_example runtime host source user_message ex x).0)
        (Clean-run_steps runtime host source (has_checks ex.row_checks) last 0 ex.steps _ c)
      ∙ finish_quiet ex last h t
          (check_row-quiet runtime host source ex.row_checks ex.steps (last_of ex.steps) last t a)

  -- Where the author's code never throws `undefined`, an example that is not expected to fail passes
  -- exactly when all its steps ran, in order, each in the state that its file had, every handler
  -- returned a value, and the value was judged to agree with the document; and the last step of a
  -- header-bound row answered the row.
  pub run_example-pass_iff :
      ThrowsValues host
      → (ex : PlannedExample) (world : W) → ex.expects_failure ≡ false
      → ((run_example runtime host source user_message ex world).0 ≡ pass) ↔ RunsClean ex world
  run_example-pass_iff law ex world h =
      (λ e. unfold run_example in finish-Clean law ex world _ refl h e, RunsClean-pass ex world h)

  run_example_lem :
      (ex : PlannedExample) (world : W)
      → (run_example runtime host source user_message ex world).0
        ≡ (finish_example runtime host source user_message ex (
            run_steps runtime host source
              (has_checks ex.row_checks)
              0
              ex.steps
              (start runtime host source world))).0
  unfolding run_example
  run_example_lem ex world = refl

  threw-call_step :
      (bound : Bool) (i : ℕ) (step : PlannedStep) (state e : Value) (run : Run W) (after : W)
      → host.call step.step_def.handler state (step.args ++ extra_args step) run.world
        ≡ (threw e, after)
      → call_step runtime host source bound i step state run
        ≡ breaks (fail_step runtime host source i step (user e) (record run { world = after }))
  unfolding call_step called
  threw-call_step bound i step state e run after c = rw c refl

  -- the loop behind a handler that throws
  threw-run_steps :
      (bound : Bool) (i : ℕ) (step : PlannedStep) (steps : List PlannedStep) (state e : Value)
      (run before : Run W) (after : W)
      → enter runtime host source step run ≡ entered state before
      → host.call step.step_def.handler state (step.args ++ extra_args step) before.world
        ≡ (threw e, after)
      → run_steps runtime host source bound i (step ∷ steps) run
        ≡ ended (fail_step runtime host source i step (user e) (record before { world = after }))
  threw-run_steps bound i step steps state e run before after q c =
      run_steps_lem runtime host source bound i step steps run
      ∙ ap (loop_entered runtime host source bound i step steps) q
      ∙ ap (loop_from runtime host source bound i steps)
          (threw-call_step bound i step state e before after c)

  fail_step-undefined :
      (i : ℕ) (step : PlannedStep) (run : Run W)
      → (fail_step runtime host source i step (user undefined) run).thrown ≡ none
  unfolding fail_step augment
  fail_step-undefined i step run = refl

  -- Where the first handler throws `undefined`, an example without row checks that is not expected to
  -- fail passes, whatever its other steps are.
  pub undefined_thrown-pass :
      (ex : PlannedExample) (step : PlannedStep) (steps : List PlannedStep) (state : Value)
      (before : Run W) (world after : W)
      → ex.steps ≡ step ∷ steps
      → ex.row_checks ≡ none
      → ex.expects_failure ≡ false
      → enter runtime host source step (start runtime host source world) ≡ entered state before
      → host.call step.step_def.handler state (step.args ++ extra_args step) before.world
        ≡ (threw undefined, after)
      → (run_example runtime host source user_message ex world).0 ≡ pass
  undefined_thrown-pass ex step steps state before world after s k h q c =
      let r =
        fail_step runtime host source 0 step (user undefined) (record before { world = after }) in
      let quiet : AnswersRow runtime host source ex.row_checks (last_of ex.steps) r.last_return =
        rw k tt in
      let t = fail_step-undefined 0 step (record before { world = after }) in
      run_example_lem ex world
      ∙ ap (λ (x : Ended W). (finish_example runtime host source user_message ex x).0)
          (ap
              (λ (l : List PlannedStep).
                run_steps runtime host source (has_checks ex.row_checks) 0 l
                  (start runtime host source world))
              s
            ∙ threw-run_steps (has_checks ex.row_checks) 0 step steps state undefined _ before after
                q c)
      ∙ finish_quiet ex r h t
          (check_row-quiet runtime host source ex.row_checks ex.steps (last_of ex.steps) r t quiet)
