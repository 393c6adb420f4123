-- ===== src/Drift/Tests.antt =====
-- Runs of drift.ts, and its theorems at a concrete document.
use varar.Base.{ℕ, false, List, [], ◌∷◌, none, some, ◌≡◌, refl, All, arith}
use varar.Text.{Text, codes, split_on, text_eq, trimmed_length, leading}
use varar.Span.{Span}
use varar.Ast.{Example, Doc, paragraph}
use varar.Plan.{PlannedExample, ExecutionPlan}
use varar.Drift.{OathBaseline, detect_drift, derive_oath_baseline}
use varar.Drift.Unchanged.{detect_drift_unchanged}
use varar.Drift.Reported.{IsExplained, detect_drift_sound}

-- the words between spaces
abbrev words : Text → List Text
words t = split_on 0x20 t

abbrev span : ℕ → ℕ → ℕ → Span
span a b line = record {
  start_offset = a;
  end_offset = b;
  start_line = line;
  start_col = 1;
  end_line = line;
  end_col = 1;
}

abbrev candidate : Text → Span → Example
candidate t s = record {
  scope_stack = [];
  span = s;
  body = paragraph (record { text = t; span = s; segment_map = [] }) ∷ [];
  preceded_by_delimiter = false;
}

abbrev doc_of : List Example → Doc
doc_of candidates = record {
  path = [];
  source = [];
  examples = candidates;
  orphan_attachments = [];
  headings = [];
}

abbrev planned : Span → PlannedExample
planned s = record {
  name = [];
  scope_stack = [];
  span = s;
  steps = [];
  header_binding = none;
  row_checks = none;
  expects_failure = false;
  expected_error_message = none;
}

abbrev plan_of : Doc → List PlannedExample → ExecutionPlan
plan_of doc examples = record { doc = doc; examples = examples; diagnostics = [] }

abbrev two_paragraphs : Doc
two_paragraphs = doc_of (
    candidate (codes "I add two") (span 0 9 1) ∷ candidate (codes "some prose") (span 11 21 3) ∷ [])

detect_drift_unchanged_example :
    detect_drift words
      (some (
        derive_oath_baseline [] two_paragraphs
          (plan_of two_paragraphs (planned (span 0 9 1) ∷ []))))
      two_paragraphs
      (plan_of two_paragraphs (planned (span 0 9 1) ∷ []))
    ≡ []
detect_drift_unchanged_example =
    detect_drift_unchanged words [] two_paragraphs
      (plan_of two_paragraphs (planned (span 0 9 1) ∷ [])) (((λ e. ground arith), tt), (tt, tt))

abbrev recorded : OathBaseline
recorded = record {
  source_hash = [];
  examples = record { name = codes "I add two"; line = 1 } ∷ [];
}

-- The paragraph is reworded and moved, and matches no step.
abbrev reworded : Doc
reworded = doc_of (
    candidate (codes "some prose") (span 0 10 1)
    ∷ candidate (codes "I add three.") (span 12 24 3)
    ∷ [])

reworded_drifts :
    detect_drift words (some recorded) reworded (plan_of reworded [])
    ≡ record { name = codes "I add two"; line = 3; span = span 12 24 3 } ∷ []
unfolding detect_drift text_eq split_on trimmed_length leading
reworded_drifts = refl

detect_drift_sound_example :
    All
      (IsExplained words reworded (plan_of reworded []) recorded.examples)
      (detect_drift words (some recorded) reworded (plan_of reworded []))
detect_drift_sound_example = detect_drift_sound words reworded (plan_of reworded []) recorded
