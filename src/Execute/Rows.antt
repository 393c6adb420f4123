-- ===== src/Execute/Rows.antt =====
-- The row checks behind the loop (typescript/packages/core/src/execute.ts).
use varar.Base.{
  ◌-◌, length, true, false, List, [], ◌∷◌, Option, none, some, ◌≡◌, ◌≢◌, refl, ap, sym, ◌∙◌, arith,
  Bool-cases, Option-cases, All, inl, inr,
}
use varar.Text.{Text}
use varar.Value.{Value, undefined}
use varar.Cells.{CellDiff, Runtime, RowCheck, compare_row}
use varar.Plan.{PlannedStep}
use varar.Execute.Failures.{Mismatch, mismatched, Failure}
use varar.Execute.Sensors.{failing, is_undefined}
use varar.Execute.Sensors.Sound.{failing-eq-nil, eq_undefined, ne_undefined}
use varar.Execute.{Host, Run, fail_step, check_row, row_error, or_empty}
use varar.Execute.Runs.{fail_step-thrown}

module _ {W : Type 0} (runtime : Runtime) (host : Host W) (source : Text) where
  pub check_row-thrown :
      (checks : List RowCheck) (steps : List PlannedStep) (last : Option PlannedStep) (run : Run W)
      → (check_row runtime host source checks steps last run).thrown ≡ none
      → run.thrown ≡ none
  unfolding check_row
  check_row-thrown checks steps none run e = e
  check_row-thrown [] steps (some last) run e = e
  check_row-thrown (c ∷ checks) steps (some last) run e = elim (Option-cases run.thrown) [
    | inl n ↦ n
    | inr (f, s) ↦ ground arith
  ]

  -- A header-bound row's last step returned something, and it shows no difference to the row's cells.
  abbrev pub AnswersRow : Option (List RowCheck) → Option PlannedStep → Value → Type 0
  AnswersRow (some (c ∷ checks)) (some last) v =
      (v ≢ undefined) × All (λ d. d.ok ≡ true) (compare_row runtime v (c ∷ checks))
  AnswersRow _ _ v = Unit

  row_error-eq-none :
      (v : Value) (checks : List RowCheck)
      → row_error runtime host source v checks ≡ none
      → (v ≢ undefined) × All (λ d. d.ok ≡ true) (compare_row runtime v checks)
  row_error-eq-none v checks e = elim (Bool-cases (is_undefined v)) [
    | inl u ↦ absurd (ground arith)
    | inr u ↦ (ne_undefined v u, failing-eq-nil _ (ground arith))
  ]

  -- what the row's checks leave, from their error
  abbrev row_judged : List PlannedStep → PlannedStep → Run W → Option Mismatch → Run W
  row_judged steps last run none = run
  row_judged steps last run (some e) =
      fail_step runtime host source (length steps - 1) last (mismatched e) run

  row_judged-thrown :
      (steps : List PlannedStep) (last : PlannedStep) (run : Run W) (x : Option Mismatch)
      → (row_judged steps last run x).thrown ≡ none
      → x ≡ none
  row_judged-thrown steps last run none h = refl
  row_judged-thrown steps last run (some e) h =
      let (f, q) =
        fail_step-thrown runtime host source false (length steps - 1) last (mismatched e) run
          (λ q. cc) in
      cc

  check_row_lem :
      (c : RowCheck) (checks : List RowCheck) (steps : List PlannedStep) (last : PlannedStep)
      (run : Run W)
      → run.thrown ≡ none
      → check_row runtime host source (c ∷ checks) steps (some last) run
        ≡ row_judged steps last run (row_error runtime host source run.last_return (c ∷ checks))
  unfolding check_row
  check_row_lem c checks steps last run n =
      read run.thrown (row_error runtime host source run.last_return (c ∷ checks)) n
    where
      read :
          (t : Option Failure) (x : Option Mismatch)
          → t ≡ none
          → elim t [
            | some f ↦ run
            | none ↦ elim x [
              | none ↦ run
              | some e ↦ fail_step runtime host source (length steps - 1) last (mismatched e) run
            ]
          ]
            ≡ row_judged steps last run x
      read none none q = refl
      read none (some e) q = refl
      read (some f) x q = cc

  pub check_row-AnswersRow :
      (checks : Option (List RowCheck)) (steps : List PlannedStep) (last : Option PlannedStep)
      (run : Run W)
      → (check_row runtime host source (or_empty checks) steps last run).thrown ≡ none
      → AnswersRow checks last run.last_return
  check_row-AnswersRow none steps last run e = tt
  check_row-AnswersRow (some []) steps last run e = tt
  check_row-AnswersRow (some (c ∷ checks)) steps none run e = tt
  check_row-AnswersRow (some (c ∷ checks)) steps (some last) run e =
      let n = check_row-thrown (c ∷ checks) steps (some last) run e in
      row_error-eq-none run.last_return (c ∷ checks) (
        row_judged-thrown steps last run _
          (ap (λ (r : Run W). r.thrown) (sym (check_row_lem c checks steps last run n)) ∙ e))

  failing-quiet : (ds : List CellDiff) → All (λ d. d.ok ≡ true) ds → failing ds ≡ []
  unfolding failing
  failing-quiet [] a = refl
  failing-quiet (d ∷ ds) a = rw (a.0) (failing-quiet ds a.1)

  row_error-quiet :
      (v : Value) (checks : List RowCheck)
      → v ≢ undefined
      → All (λ d. d.ok ≡ true) (compare_row runtime v checks)
      → row_error runtime host source v checks ≡ none
  row_error-quiet v checks n a = elim (Bool-cases (is_undefined v)) [
    | inl u ↦ absurd (n (eq_undefined v u))
    | inr u ↦ rw (u, failing-quiet _ a) refl
  ]

  pub check_row-quiet :
      (checks : Option (List RowCheck)) (steps : List PlannedStep) (last : Option PlannedStep)
      (run : Run W)
      → run.thrown ≡ none
      → AnswersRow checks last run.last_return
      → check_row runtime host source (or_empty checks) steps last run ≡ run
  check_row-quiet none steps none run t a = unfold check_row in refl
  check_row-quiet none steps (some last) run t a = unfold check_row in refl
  check_row-quiet (some []) steps none run t a = unfold check_row in refl
  check_row-quiet (some []) steps (some last) run t a = unfold check_row in refl
  check_row-quiet (some (c ∷ checks)) steps none run t a = unfold check_row in refl
  check_row-quiet (some (c ∷ checks)) steps (some last) run t a =
      check_row_lem c checks steps last run t
      ∙ ap (row_judged steps last run) (row_error-quiet run.last_return (c ∷ checks) a.0 a.1)
