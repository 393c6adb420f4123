-- ===== src/Scanner/Tests.antt =====
-- Runs of scanner.ts.
use varar.Base.{◌+◌, false, length, All, List, [], ◌∷◌, ◌++◌, map, some, ◌≡◌, refl}
use varar.Text.{Text, codes, newline, join_on}
use varar.Ast.{
  Block, heading, paragraph, list_item, blockquote, table, fence, thematic_break, block_span,
}
use varar.Span.{span_from_offsets}
use varar.Unicode.{Unicode}
use varar.Matcher.Sample.{engine, IsEngine-engine, Parses-engine, registry}
use varar.Reference.Sections.{OathWorkspace}
use varar.Plan.{ExecutionPlan}
use varar.Plan.Planned.{Planned, planned, empty_segment_map, parse_threw, exhausted}
use varar.Plan.Documents.{plan}
use varar.Drift.Unchanged.{HaveDistinctLines}
use varar.Structurer.{structure}
use varar.Scanner.{split_lines}
use varar.Scanner.Scan.{scan_from, scan, parse}
use varar.Scanner.Lines.{line_text, join_on-split_lines}
use varar.Scanner.Reading.{AreInOrder, scan-AreInOrder, scan_total}
use varar.Scanner.Lifted.{HasExactMap, scan-HasExactMap}
use varar.Scanner.Segmented.{plan-parse_total}
use varar.Scanner.Places.{parse-HaveDistinctLines}

abbrev kind : Block → Text
kind (heading b) = codes "heading " ++ b.text
kind (paragraph b) = codes "paragraph " ++ b.text
kind (list_item b) = codes "item " ++ b.text
kind (blockquote b) = codes "quote " ++ b.text
kind (table b) = codes "table"
kind (fence b) = codes "fence " ++ b.body
kind (thematic_break b) = codes "break"

abbrev document : Text
document = join_on newline (
    codes "# A title ##"
    ∷ []
    ∷ codes "Some text"
    ∷ codes "goes on"
    ∷ codes "| a | b |"
    ∷ codes "|:--|---|"
    ∷ codes "| 1 | 2 |"
    ∷ codes "* * *"
    ∷ codes " - one"
    ∷ codes "2) two"
    ∷ codes "> said"
    ∷ codes ">it"
    ∷ codes "```js"
    ∷ codes "x"
    ∷ codes "```"
    ∷ codes "end"
    ∷ [])

kinds :
    map kind (scan document)
    ≡ codes "heading A title"
      ∷ (codes "paragraph Some text" ++ newline ∷ codes "goes on")
      ∷ codes "table"
      ∷ codes "break"
      ∷ codes "item one"
      ∷ codes "item two"
      ∷ (codes "quote said" ++ newline ∷ codes "it")
      ∷ (codes "fence x" ++ newline ∷ [])
      ∷ codes "paragraph end"
      ∷ []
unfolding scan join_on
kinds = refl

scan-AreInOrder_example : AreInOrder document 0 (length document) (map block_span (scan document))
scan-AreInOrder_example = scan-AreInOrder document

scan_total_example :
    scan_from document (length (split_lines document) + 2) (split_lines document)
    ≡ some (scan document)
scan_total_example = scan_total document 2

join_on-split_lines_example : join_on newline (map line_text (split_lines document)) ≡ document
join_on-split_lines_example = join_on-split_lines document

scan-HasExactMap_example : All (HasExactMap document) (scan document)
scan-HasExactMap_example = scan-HasExactMap document

-- `indexOf` finds the quote's text in the mark.
quote_in_mark :
    scan (codes "> >")
    ≡ blockquote (record {
      text = codes ">";
      span = span_from_offsets (codes "> >") 0 3;
      segment_map = record { text_offset = 0; source_offset = 0 } ∷ [];
    })
      ∷ []
unfolding scan span_from_offsets
quote_in_mark = refl

-- A list item whose line ends in a carriage return is a paragraph.
carriage_return :
    map kind (scan (codes "- a" ++ 0x0d ∷ [])) ≡ (codes "paragraph - a" ++ 0x0d ∷ []) ∷ []
unfolding scan
carriage_return = refl

abbrev unicode : Unicode
unicode = record {
  to_lower = λ s. s;
  without_punctuation = λ s. s;
  word_behind = λ s i. false;
  word_ahead = λ s i. false;
}

-- a section that refers to itself, and another document
abbrev circular : Text
circular = join_on newline (codes "# x" ∷ codes "[again](#x)" ∷ [] ∷ codes "[more](b.md)" ∷ [])

abbrev workspace : OathWorkspace
workspace = record { docs = (codes "b.md", parse (codes "b.md") document) ∷ []; referenced = [] }

plan-parse_total_example :
    (blocks : List Block) × (p : ExecutionPlan) × (scan_from circular
        (length (split_lines circular))
        (split_lines circular)
      ≡ some blocks)
    × (plan unicode engine registry workspace (structure (codes "a.md") circular blocks)
        ≡ planned p p.diagnostics)
plan-parse_total_example =
    plan-parse_total unicode engine registry workspace (codes "a.md") circular IsEngine-engine
      Parses-engine ((codes "b.md", document, refl), tt)

parse-HaveDistinctLines_example : HaveDistinctLines (parse (codes "a.md") document).examples
parse-HaveDistinctLines_example = parse-HaveDistinctLines (codes "a.md") document

abbrev names_of : Planned ExecutionPlan → List Text
names_of (planned p ds) = map (λ e. e.name) p.examples
names_of empty_segment_map = []
names_of parse_threw = []
names_of exhausted = []

-- Paragraphs without a delimiter between them share an example, also with those that a link brings in.
plan_runs :
    names_of (
      plan unicode engine registry workspace (
        parse (codes "a.md") (
          join_on newline (
            codes "# T"
            ∷ codes "[more](b.md)"
            ∷ []
            ∷ codes "Go on."
            ∷ []
            ∷ codes "---"
            ∷ codes "Run!"
            ∷ []))))
    ≡ codes "Go on" ∷ codes "Run" ∷ []
unfolding plan parse join_on
plan_runs = refl
