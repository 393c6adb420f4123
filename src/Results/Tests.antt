-- ===== src/Results/Tests.antt =====
-- Runs of run-diagnostics.ts, and its theorems at concrete inputs.
use varar.Base.{All, ℕ, Bool, arith, true, false, List, [], ◌∷◌, map, none, some, ◌≡◌, refl}
use varar.Text.{Text, codes, newline, join_on, slice, split_on}
use varar.Hash.{hash_source}
use varar.Results.{CellFailure, ExampleFailure, OathResults, line_range, run_result_diagnostics}
use varar.Span.{Span}
use varar.Cells.{CellDiff}
use varar.Matcher.Sample
use varar.Plan.{PlannedStep}
use varar.Execute.Failures.{cell_mismatch, mismatched, augment}
use varar.Results.Failures.{to_failure, to_failure-augment}
use varar.Results.Lines.{line_range_exact}
use varar.Results.Within.{IsWithin, Shown, run_result_diagnostics-Shown}

abbrev source : Text
source = join_on newline (codes "one" ∷ codes "two" ∷ codes "three" ∷ [])

line_range_exact_example :
    slice source (line_range source 2).first (line_range source 2).last ≡ codes "two"
unfolding split_on join_on
line_range_exact_example = line_range_exact source 1 (codes "two") refl

abbrev failure : ExampleFailure
failure = record {
  line = 2;
  message = codes "no";
  stack = [];
  cells = none;
  anchor = some (record { first = 0; last = 99 });
  doc_path = none;
}

abbrev results : OathResults
results = record {
  oath_path = codes "a.md";
  source_hash = hash_source source;
  documents = none;
  examples =
      record { name = codes "two"; passed = false; lines = 2 ∷ []; failure = some failure } ∷ [];
}

-- The anchor is outside of the source, so the line is shown.
stale_anchor : map (λ d. (d.first)) (run_result_diagnostics results source none) ≡ 4 ∷ []
unfolding run_result_diagnostics hash_source join_on
stale_anchor = refl

other_document : run_result_diagnostics results source (some (codes "b.md")) ≡ []
unfolding run_result_diagnostics
other_document = refl

run_result_diagnostics-Shown_example :
    All (Shown source) (run_result_diagnostics results source none)
run_result_diagnostics-Shown_example =
    run_result_diagnostics-Shown results source none ((λ f e cells q. no_cells f e cells q), tt)
  where
    no_cells :
        (f : ExampleFailure)
        → some failure ≡ some f
        → (cells : List CellFailure) → f.cells ≡ some cells
        → All (λ c. IsWithin source c.first c.last) cells
    no_cells f e cells q = absurd (ground arith)

abbrev no_span : ℕ → ℕ → Span
no_span a b = record {
  start_offset = a;
  end_offset = b;
  start_line = 1;
  start_col = 1;
  end_line = 1;
  end_col = 1;
}

abbrev cell : ℕ → Bool → CellDiff
cell at right = record {
  column = codes "a";
  span = no_span at 9;
  expected = codes "1";
  actual = codes "2";
  ok = right;
  expected_value = none;
  actual_value = none;
  formatted = none;
}

abbrev step : PlannedStep
step = record {
  text = codes "I add";
  match_span = no_span 0 5;
  doc_path = some (codes "b.md");
  param_spans = [];
  param_texts = [];
  param_inner_spans = [];
  step_def = Sample.step;
  args = [];
  formats = [];
  data_table = none;
  doc_string = none;
}

abbrev shown : ExampleFailure
shown =
    to_failure (λ f. codes "at b.md:12:3") (λ f. codes "no")
      (augment (mismatched (cell_mismatch (cell 3 true ∷ cell 6 false ∷ []))) step) (codes "a.md") 1

-- the line in the frame of the step's document
shown_line : shown.line ≡ 12
unfolding to_failure augment
shown_line = refl

to_failure-augment_example :
    (shown.anchor ≡ some (record { first = 6; last = 9 })) × (shown.doc_path ≡ some (codes "b.md"))
unfolding to_failure augment
to_failure-augment_example =
    to_failure-augment (λ f. codes "at b.md:12:3") (λ f. codes "no")
      (cell 3 true ∷ cell 6 false ∷ []) step (codes "a.md") 1
      (record { first = 6; last = 9; actual = codes "2" }) [] refl
