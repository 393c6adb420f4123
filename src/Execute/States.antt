-- ===== src/Execute/States.antt =====
-- The states of an example's step files: each file has its own, and only a stimulus replaces it.
use varar.Base.{
  ℕ, Bool, false, not, ◌&&◌, ◌||◌, List, [], ◌∷◌, none, some, ◌≡◌, refl, arith, if◌then◌else◌,
}
use varar.Text.{Text, text_eq}
use varar.Text.Laws.{text_eq_iff}
use varar.Value.{Value}
use varar.Registry.{stimulus, sensor}
use varar.Cells.{Runtime, is_null}
use varar.Plan.{PlannedStep}
use varar.Execute.Sensors.{Verdict, agreed, rejected, is_undefined, judge}
use varar.Execute.{
  Completion, returned, threw, Host, Run, state_of, set_state, fail_step, pass_step, Next, goes_on,
  breaks, settled, called, call_step,
}

pub state_of-set_state :
    (f g : Text) (v : Value) (states : List (Text × Value))
    → state_of g (set_state f v states) ≡ (if text_eq f g then some v else state_of g states)
unfolding state_of set_state
state_of-set_state f g v [] = refl
state_of-set_state f g v ((h, w) ∷ states) =
    ground
      (arith, text_eq_iff f g, text_eq_iff h f, text_eq_iff h g, state_of-set_state f g v states)

module _ {W : Type 0} (runtime : Runtime) (host : Host W) (source : Text) where
  -- Whether a step with this return changes the state of the file `g`.
  abbrev pub replaces : PlannedStep → Value → Text → Bool
  replaces step v g = elim step.step_def.kind [
    | none ↦ false
    | some k ↦ elim k [
      | stimulus ↦
          not (is_undefined v || is_null v) && text_eq step.step_def.expression_source_file g
      | sensor ↦ false
    ]
  ]

  state_of-pass_step :
      (i : ℕ) (step : PlannedStep) (v : Value) (run : Run W) (g : Text)
      → state_of g (pass_step runtime host source i step v run).states
        ≡ (if replaces step v g then some v else state_of g run.states)
  unfolding pass_step
  state_of-pass_step i step v run g =
      ground (arith, state_of-set_state step.step_def.expression_source_file g v run.states)

  -- What a step leaves as the state of a file `g`, when the loop goes on behind it: its return, if it
  -- is a stimulus of that file that returned something, and otherwise what was there before. Where the
  -- step ends the loop, no state changes.
  abbrev pub KeepsApart : PlannedStep → Run W → Text → Next W → Type 0
  KeepsApart step run g (breaks r) = state_of g r.states ≡ state_of g run.states
  KeepsApart step run g (goes_on r) =
      state_of g r.states
      ≡ (if replaces step r.last_return g then some r.last_return else state_of g run.states)

  settled-KeepsApart :
      (i : ℕ) (step : PlannedStep) (run : Run W) (g : Text) (r : Verdict)
      → KeepsApart step run g (settled runtime host source i step run.last_return run r)
  unfolding settled fail_step
  settled-KeepsApart i step run g (rejected e) = refl
  settled-KeepsApart i step run g agreed =
      unfold fail_step in state_of-pass_step i step run.last_return run g

  called-KeepsApart :
      (bound : Bool) (i : ℕ) (step : PlannedStep) (run : Run W) (g : Text) (c : Completion × W)
      → KeepsApart step run g (called runtime host source bound i step run c)
  unfolding called
  called-KeepsApart bound i step run g (threw e, world) = unfold fail_step in refl
  called-KeepsApart bound i step run g (returned v, world) =
      settled-KeepsApart i step (record run { last_return = v; world = world }) g
        (judge runtime source bound step v)

  -- After a step that lets the loop go on, the state of a file is what the step returned, if it is a
  -- stimulus of that file that returned something, and what it was before in every other case. A step
  -- that ends the loop changes no state.
  pub call_step-KeepsApart :
      (bound : Bool) (i : ℕ) (step : PlannedStep) (v : Value) (run : Run W) (g : Text)
      → KeepsApart step run g (call_step runtime host source bound i step v run)
  unfolding call_step
  call_step-KeepsApart bound i step v run g = called-KeepsApart bound i step run g _
