-- ===== src/Execute/Runs.antt =====
-- The loop over an example's steps (typescript/packages/core/src/execute.ts): when it runs through.
use varar.Base.{
  ℕ, ◌+◌, Bool, List, [], ◌∷◌, ◌++◌, none, some, ◌≡◌, ◌≢◌, refl, ap, sym, ◌∙◌, arith, Option-cases,
  inl, inr,
}
use varar.Text.{Text}
use varar.Value.{Value, undefined}
use varar.Cells.{Runtime}
use varar.Plan.{PlannedStep}
use varar.Execute.Failures.{Thrown, mismatched, user, Failure, augment}
use varar.Execute.Sensors.{Verdict, agreed, rejected, judge, extra_args}
use varar.Execute.{
  Completion, returned, threw, Host, Run, fail_step, pass_step, Next, goes_on, breaks, settled,
  called, call_step, Entered, entered, no_context, enter, created, state_of, file_of, run_steps,
  Ended, ended, aborted,
}

-- The author's code never throws `undefined`.
abbrev pub ThrowsValues : {W : Type 0} → Host W → Type 0
ThrowsValues {W} host =
    (h : ℕ) (state : Value) (args : List Value) (world : W)
    → (host.call h state args world).0 ≢ threw undefined

module _ {W : Type 0} (runtime : Runtime) (host : Host W) (source : Text) (bound : Bool) where
  -- The loop runs through: each handler returned a value, the next one was called in the world and
  -- with the states that it left, and every value was judged to agree with the document.
  pub data Clean (last : Run W) : ℕ → List PlannedStep → Run W → Type 0 where
    stop : {i : ℕ} {run : Run W} → run ≡ last → Clean last i [] run
    more :
        {i : ℕ} {step : PlannedStep} {steps : List PlannedStep} {run : Run W} (before : Run W)
        (state v : Value) (world : W)
        → enter runtime host source step run ≡ entered state before
        → host.call step.step_def.handler state (step.args ++ extra_args step) before.world
          ≡ (returned v, world)
        → judge runtime source bound step v ≡ agreed
        → Clean last (i + 1) steps (
            pass_step runtime host source i step v
              (record before { last_return = v; world = world }))
        → Clean last i (step ∷ steps) run

  pub fail_step-thrown :
      (i : ℕ) (step : PlannedStep) (e : Thrown) (run : Run W)
      → e ≢ user undefined
      → (f : Failure) × ((fail_step runtime host source i step e run).thrown ≡ some f)
  unfolding fail_step augment
  fail_step-thrown i step (user undefined) run h = absurd (h refl)
  fail_step-thrown i step _ run h = (_, refl)

  -- what a call that broke the loop leaves, or what one that did not has done
  abbrev After : ℕ → PlannedStep → Run W → Completion × W → Next W → Type 0
  After i step run c (breaks r) = (f : Failure) × (r.thrown ≡ some f)
  After i step run c (goes_on r) =
      (v : Value) × (c ≡ (returned v, c.1))
      × (judge runtime source bound step v ≡ agreed)
      × (r ≡ pass_step runtime host source i step v (record run { last_return = v; world = c.1 }))

  settled-After :
      (i : ℕ) (step : PlannedStep) (v : Value) (world : W) (run : Run W) (r : Verdict)
      → judge runtime source bound step v ≡ r
      → After i step run
          (returned v, world)
          (settled runtime host source i step v (record run { last_return = v; world = world }) r)
  unfolding settled
  settled-After i step v world run (rejected e) j =
      fail_step-thrown i step (mismatched e) (record run { last_return = v; world = world })
        (λ q. cc)
  settled-After i step v world run agreed j = (v, refl, j, refl)

  called-After :
      (i : ℕ) (step : PlannedStep) (run : Run W) (c : Completion × W)
      → c.0 ≢ threw undefined
      → After i step run c (called runtime host source bound i step run c)
  unfolding called
  called-After i step run (threw e, world) h =
      fail_step-thrown i step (user e) (record run { world = world }) (λ q. h (cc))
  called-After i step run (returned v, world) h =
      settled-After i step v world run (judge runtime source bound step v) refl

  -- the rest of the loop, from what a step left
  abbrev pub loop_from : ℕ → List PlannedStep → Next W → Ended W
  loop_from i steps (breaks r) = ended r
  loop_from i steps (goes_on r) = run_steps runtime host source bound (i + 1) steps r

  abbrev pub loop_entered : ℕ → PlannedStep → List PlannedStep → Entered W → Ended W
  loop_entered i step steps (no_context e r) = aborted e r
  loop_entered i step steps (entered v r) =
      loop_from i steps (call_step runtime host source bound i step v r)

  pub run_steps_lem :
      (i : ℕ) (step : PlannedStep) (steps : List PlannedStep) (run : Run W)
      → run_steps runtime host source bound i (step ∷ steps) run
        ≡ loop_entered i step steps (enter runtime host source step run)
  unfolding run_steps
  run_steps_lem i step steps run = ground arith

  ended_injective : (r s : Run W) → ended r ≡ ended s → r ≡ s
  ended_injective r s e = cc

  pub run_steps-Clean :
      ThrowsValues host
      → (i : ℕ) (steps : List PlannedStep) (run last : Run W)
      → run_steps runtime host source bound i steps run ≡ ended last
      → last.thrown ≡ none
      → Clean last i steps run
  run_steps-Clean law i [] run last e t = stop (ended_injective run last (unfold run_steps in e))
  run_steps-Clean law i (step ∷ steps) run last e t =
      through (λ r x. run_steps-Clean law (i + 1) steps r last x t)
        (enter runtime host source step run) refl (sym (run_steps_lem i step steps run) ∙ e)
    where
      gone :
          ((r : Run W)
            → run_steps runtime host source bound (i + 1) steps r ≡ ended last
            → Clean last (i + 1) steps r)
          → (v : Value) (before : Run W) (x : Next W)
          → enter runtime host source step run ≡ entered v before
          → After i step before
              (host.call step.step_def.handler v (step.args ++ extra_args step) before.world)
              x
          → loop_from i steps x ≡ ended last
          → Clean last i (step ∷ steps) run
      gone rest v before (breaks r) q (f, h) l =
          let same = ended_injective r last l in cc (ap (λ (x : Run W). x.thrown) same)
      gone rest v before (goes_on r) q (w, c, j, same) l =
          more before v w _ q c j (rw same at (rest r l))

      through :
          ((r : Run W)
            → run_steps runtime host source bound (i + 1) steps r ≡ ended last
            → Clean last (i + 1) steps r)
          → (x : Entered W) → enter runtime host source step run ≡ x
          → loop_entered i step steps x ≡ ended last
          → Clean last i (step ∷ steps) run
      through rest (no_context x r) q l = cc
      through rest (entered v before) q l =
          gone rest v before (call_step runtime host source bound i step v before) q
            (unfold call_step in
              called-After i step before _
                (law step.step_def.handler v (step.args ++ extra_args step) before.world))
            l

  call_step-goes_on :
      (i : ℕ) (step : PlannedStep) (run : Run W) (state v : Value) (world : W)
      → host.call step.step_def.handler state (step.args ++ extra_args step) run.world
        ≡ (returned v, world)
      → judge runtime source bound step v ≡ agreed
      → call_step runtime host source bound i step state run
        ≡ goes_on
            (pass_step runtime host source i step v (record run { last_return = v; world = world }))
  unfolding call_step called settled
  call_step-goes_on i step run state v world c j = rw (c, j) refl

  -- Conversely, a loop that runs through ends with its last variables and throws nothing.
  pub Clean-run_steps :
      (last : Run W) (i : ℕ) (steps : List PlannedStep) (run : Run W)
      → Clean last i steps run
      → run_steps runtime host source bound i steps run ≡ ended last
  Clean-run_steps last i [] run (stop e) = unfold run_steps in ap ended e
  Clean-run_steps last i (step ∷ steps) run (more before state v world q c j rest) =
      run_steps_lem i step steps run
      ∙ ap (loop_entered i step steps) q
      ∙ ap (loop_from i steps) (call_step-goes_on i step before state v world c j)
      ∙ Clean-run_steps last (i + 1) steps _ rest

  created-thrown :
      (step : PlannedStep) (run before : Run W) (state : Value) (c : Completion × W)
      → created runtime host source step run c ≡ entered state before
      → before.thrown ≡ run.thrown
  unfolding created
  created-thrown step run before state (threw e, world) q = cc
  created-thrown step run before state (returned v, world) q = cc

  enter-thrown :
      (step : PlannedStep) (run before : Run W) (state : Value)
      → enter runtime host source step run ≡ entered state before
      → before.thrown ≡ run.thrown
  unfolding enter
  enter-thrown step run before state q =
      elim (Option-cases (state_of (file_of runtime host source step) run.states)) [
        | inl n ↦ created-thrown step run before state _ (rw (enter, n) at q)
        | inr (v, s) ↦ cc
      ]

  pub Clean-thrown :
      (last : Run W) (i : ℕ) (steps : List PlannedStep) (run : Run W)
      → Clean last i steps run
      → run.thrown ≡ none
      → last.thrown ≡ none
  Clean-thrown last i [] run (stop e) t = cc
  Clean-thrown last i (step ∷ steps) run (more before state v world q c j rest) t =
      Clean-thrown last (i + 1) steps _ rest
        (unfold pass_step in enter-thrown step run before state q ∙ t)
