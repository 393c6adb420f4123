-- ===== src/Cells/DocStrings.antt =====
-- typescript/packages/core/src/doc-string-diff.ts: the text of a fence.
use varar.Base.{false, Option, none, some, if◌then◌else◌}
use varar.Text.{Text, text_eq, codes}
use varar.Span.{Span}
use varar.Value.{Value, undefined, str}
use varar.Cells.{CellDiff, Runtime, not_a_string, Checked, checked, misshaped}

module _ (runtime : Runtime) where
  -- `JSON.stringify` of a string never fails
  abbrev quoted : Text → Text
  quoted t = elim (runtime.to_json (str t)) [ none ↦ t | some q ↦ q ]

  unfoldable pub compare_doc_string : Value → Text → Span → Checked (Option CellDiff)
  compare_doc_string undefined content span = checked none
  compare_doc_string (str s) content span =
      if text_eq s content
      then checked none
      else checked (
          some (record {
            column = codes "doc string";
            span = span;
            expected = quoted content;
            actual = quoted s;
            ok = false;
            expected_value = none;
            actual_value = none;
            formatted = none;
          }))
  compare_doc_string v content span = misshaped (not_a_string v)
