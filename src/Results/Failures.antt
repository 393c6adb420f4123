-- ===== src/Results/Failures.antt =====
-- typescript/packages/core/src/failure.ts: the failure of an example from what its step threw.
use varar.Base.{
  ℕ, suc, ◌+◌, ◌*◌, ◌-◌, Bool, true, not, ◌&&◌, List, [], ◌∷◌, ◌++◌, Option, none, some, ◌≡◌, refl,
  ap, sym, ◌∙◌, arith, leb, ◌==◌, if◌then◌else◌, length, drop, Bool-cases, inl, inr,
}
use varar.Text.{Text, codes, run_of, starts_with}
use varar.Span.{Span}
use varar.Cells.{CellDiff}
use varar.Plan.{PlannedStep}
use varar.Execute.Failures.{
  cell_mismatch, Thrown, mismatched, Failure, first_failing, failure_anchor, augment,
}
use varar.Results.{CellFailure, Range, ExampleFailure}

abbrev is_digit : ℕ → Bool
is_digit c = leb b'0' c && leb c b'9'

-- `Number` of digits
unfoldable pub number_of : ℕ → Text → ℕ
number_of n [] = n
number_of n (c ∷ digits) = number_of (10 * n + (c - b'0')) digits

-- /^(\d+):\d+/
unfoldable pub line_at : Text → Option ℕ
unfolding run_of number_of starts_with
line_at s =
    let (digits, rest) = run_of is_digit s in
    if not (length digits == 0)
      && starts_with rest (codes ":")
      && not (length (run_of is_digit (drop 1 rest)).0 == 0)
    then some (number_of 0 digits)
    else none

abbrev or_line : Option ℕ → Option ℕ → Option ℕ
or_line none m = m
or_line (some n) m = some n

-- `failingLine`: behind the first place of the path that a line and a column follow
unfoldable pub failing_line : Text → Text → Option ℕ
unfolding line_at starts_with
failing_line [] path = none
failing_line (c ∷ stack) path =
    let rest = failing_line stack path in
    if starts_with (c ∷ stack) (path ++ codes ":")
    then or_line (line_at (drop (suc (length path)) (c ∷ stack))) rest
    else rest

-- the cells that are not ok
unfoldable pub failing_cells : List CellDiff → List CellFailure
failing_cells [] = []
failing_cells (c ∷ cells) =
    let rest = failing_cells cells in
    if c.ok
    then rest
    else record { first = c.span.start_offset; last = c.span.end_offset; actual = c.actual } ∷ rest

unfoldable pub cells_of : Thrown → List CellFailure
unfolding failing_cells
cells_of (mismatched (cell_mismatch cells)) = failing_cells cells
cells_of _ = []

abbrev some_cells : List CellFailure → Option (List CellFailure)
some_cells [] = none
some_cells (c ∷ cells) = some (c ∷ cells)

abbrev path_or : Option Text → Text → Text
path_or none path = path
path_or (some p) path = p

abbrev line_or : Option ℕ → ℕ → ℕ
line_or none n = n
line_or (some m) n = m

abbrev range_of : Option Span → Option Range
range_of none = none
range_of (some s) = some (record { first = s.start_offset; last = s.end_offset })

-- A cell that is ok is not shown; the first one that is not ok is.
failing_cells-skipped :
    (d : CellDiff) (cells : List CellDiff)
    → d.ok ≡ true
    → failing_cells (d ∷ cells) ≡ failing_cells cells
unfolding failing_cells
failing_cells-skipped d cells o = rw (failing_cells, o) refl

first_cell :
    (cells : List CellDiff) (fallback : Span) (c : CellFailure) (cs : List CellFailure)
    → some_cells (failing_cells cells) ≡ some (c ∷ cs)
    → range_of (some (failure_anchor (mismatched (cell_mismatch cells)) fallback))
      ≡ some (record { first = c.first; last = c.last })
unfolding failing_cells failure_anchor first_failing
first_cell [] fallback c cs e = absurd (cc)
first_cell (d ∷ cells) fallback c cs e = elim (Bool-cases d.ok) [
  | inl o ↦
      rw (failure_anchor, first_failing, o)
        (first_cell cells fallback c cs (ap some_cells (sym (failing_cells-skipped d cells o)) ∙ e))
  | inr o ↦
      rw (failure_anchor, first_failing, o)
        (let own : d.span.start_offset ≡ c.first = ground arith in
          let end : d.span.end_offset ≡ c.last = ground arith in cc)
]

-- `toFailure`, with what the error shows as its stack and its message
module _ (stack_of message_of : Failure → Text) where
  unfoldable pub to_failure : Failure → (oath_path : Text) (fallback_line : ℕ) → ExampleFailure
  unfolding failing_line cells_of
  to_failure f oath_path fallback_line = record {
    line = line_or (failing_line (stack_of f) (path_or f.doc_path oath_path)) fallback_line;
    message = message_of f;
    stack = stack_of f;
    cells = some_cells (cells_of f.error);
    anchor = range_of f.anchor;
    doc_path = f.doc_path;
  }

  -- The anchor of a failed comparison is the range of the first cell that is shown, and the document is the
  -- step's.
  pub to_failure-augment :
      (cells : List CellDiff) (step : PlannedStep) (oath_path : Text) (fallback_line : ℕ)
      (c : CellFailure) (cs : List CellFailure)
      → (to_failure (augment (mismatched (cell_mismatch cells)) step) oath_path fallback_line).cells
        ≡ some (c ∷ cs)
      → ((to_failure
            (augment (mismatched (cell_mismatch cells)) step)
            oath_path
            fallback_line).anchor
          ≡ some (record { first = c.first; last = c.last }))
        × ((to_failure
              (augment (mismatched (cell_mismatch cells)) step)
              oath_path
              fallback_line).doc_path
            ≡ step.doc_path)
  unfolding to_failure augment cells_of
  to_failure-augment cells step oath_path fallback_line c cs e =
      (first_cell cells step.match_span c cs e, refl)
