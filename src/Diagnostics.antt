-- ===== src/Diagnostics.antt =====
-- typescript/packages/core/src/diagnostics.ts: what a plan reports. Every severity is 'error'.
use varar.Base.{ℕ, List, [], ◌++◌, map, if◌then◌else◌, length}
use varar.Text.{Text, codes, decimal, join_with, text_eq}
use varar.Span.{Span}

pub data DiagnosticCode : Type 0 where
  ambiguous_match error_fence_without_step drift reference_not_found : DiagnosticCode
  reference_empty reference_cycle ambiguous_anchor : DiagnosticCode

pub record Diagnostic : Type 0 where
  pub code : DiagnosticCode
  pub message : Text
  pub span : Span

pub record Candidate : Type 0 where
  pub expression : Text
  pub source_file : Text
  pub source_line : ℕ

abbrev candidate_line : Candidate → Text
candidate_line c =
    codes "  '"
    ++ c.expression
    ++ codes "'    at "
    ++ c.source_file
    ++ codes ":"
    ++ decimal c.source_line

unfoldable pub ambiguous_match_diagnostic : Text → Span → List Candidate → Diagnostic
ambiguous_match_diagnostic text span candidates = record {
  code = ambiguous_match;
  message =
      codes "Ambiguous step: \""
      ++ text
      ++ codes "\"\nMatched by:\n"
      ++ join_with (codes "\n") (map candidate_line candidates);
  span = span;
}

unfoldable pub drift_detected : Text → Span → Diagnostic
drift_detected name span = record {
  code = drift;
  message =
      codes "This paragraph was an example and no longer matches any step (drift): \""
      ++ name
      ++ codes "\".\nFix the step so it matches again, or accept it as prose (run in update mode).";
  span = span;
}

unfoldable pub error_fence_diagnostic : Span → Diagnostic
error_fence_diagnostic span = record {
  code = error_fence_without_step;
  message =
      codes
        "This `error` fence marks the example as expected-to-fail, but the example has no step to run.";
  span = span;
}

unfoldable pub not_found_diagnostic : (text path : Text) → Span → Diagnostic
not_found_diagnostic text path span = record {
  code = reference_not_found;
  message =
      codes "Reference to \""
      ++ text
      ++ codes "\" points at \""
      ++ path
      ++ codes "\", which is not an oath in this workspace.\nCheck the path, and that the file is "
      ++ codes "matched by the `docs` globs in varar.config.json.";
  span = span;
}

unfoldable pub empty_diagnostic : (text path slug : Text) → Span → Diagnostic
unfolding text_eq
empty_diagnostic text path slug span = record {
  code = reference_empty;
  message =
      codes "Reference to \""
      ++ text
      ++ codes "\" resolves to \""
      ++ (if text_eq slug [] then path else path ++ codes "#" ++ slug)
      ++ codes "\", which contributes no steps.\nCheck the heading the anchor names, and that its "
      ++ codes "section contains a matching paragraph.";
  span = span;
}

unfoldable pub cycle_diagnostic : List Text → Span → Diagnostic
cycle_diagnostic chain span = record {
  code = reference_cycle;
  message = codes "Reference cycle: " ++ join_with (codes " → ") chain ++ codes ".";
  span = span;
}

unfoldable pub anchor_diagnostic : (text path slug : Text) → List ℕ → Span → Diagnostic
anchor_diagnostic text path slug heading_lines span = record {
  code = ambiguous_anchor;
  message =
      codes "Reference to \""
      ++ text
      ++ codes "\" is ambiguous: \""
      ++ path
      ++ codes "\" has "
      ++ decimal (length heading_lines)
      ++ codes " headings with the anchor \"#"
      ++ slug
      ++ codes "\" (lines "
      ++ join_with (codes ", ") (map decimal heading_lines)
      ++ codes ").\nRename the headings so each has an anchor of its own.";
  span = span;
}
