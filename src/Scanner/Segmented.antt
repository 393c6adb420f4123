-- ===== src/Scanner/Segmented.antt =====
-- The segment maps of the blocks of a scanned document, and its planning.
use varar.Base.{
  ℕ, zero, suc, Bool, true, false, List, [], ◌∷◌, some, ◌≡◌, sym, subst, length, Bool-cases,
  Option-cases, inl, inr, ◌==◌, All, All-append, All-map,
}
use varar.Text.{Text, trim}
use varar.Ast.{
  Heading, Block, heading, paragraph, list_item, blockquote, table, fence, thematic_break, Example,
  Doc,
}
use varar.Structurer.{attach, structure}
use varar.Structurer.Grouping.{run, attach_all, grouped, structure-grouped}
use varar.Unicode.{Unicode}
use varar.Registry.{Registry}
use varar.Matcher.Search.{Engine, IsEngine, Parses}
use varar.Reference.Sections.{OathWorkspace}
use varar.Plan.{ExecutionPlan}
use varar.Plan.Planned.{planned}
use varar.Plan.Segments.{HasSegments}
use varar.Plan.Documents.{plan}
use varar.Plan.Ends.{IsSegmented, plan_total}
use varar.Scanner.{RawLine, split_lines}
use varar.Scanner.Patterns.{
  is_thematic, bullet, numbered, quoted, heading_of, fence_mark, is_row, is_delimiter_row,
}
use varar.Scanner.Blocks.{
  try_thematic, try_heading, list_block, try_list_item, segments_from, quote_block, try_blockquote,
  fence_block, try_fence, table_block, try_table, paragraph_block, consume_paragraph,
}
use varar.Scanner.Scan.{next_block, round, scan_from, scanned, scan, parse}
use varar.Scanner.Reading.{scan_ends}
use varar.Scanner.Rounds.{Holds, scanned-All, next_block-Holds}

module _ (source : Text) where
  abbrev Found : Block × List RawLine → Type 0
  Found (b, rest) = HasSegments b

  try_fence-HasSegments :
      (line : RawLine) (lines : List RawLine) → Holds Found (try_fence source line lines)
  unfolding try_fence fence_block
  try_fence-HasSegments line lines = elim (Option-cases (fence_mark line.text)) [
    | inl e ↦ rw (Holds, try_fence, e) tt
    | inr (m, e) ↦ rw (Holds, try_fence, e) (λ t q. cc)
  ]

  try_table-HasSegments :
      (line : RawLine) (lines : List RawLine) → Holds Found (try_table source line lines)
  unfolding try_table table_block
  try_table-HasSegments line [] = tt
  try_table-HasSegments line (delim ∷ lines) = elim (Bool-cases (is_row line.text)) [
    | inr e ↦ rw e tt
    | inl e ↦ elim (Bool-cases (is_delimiter_row delim.text)) [
      | inr d ↦ rw (e, d) tt
      | inl d ↦ rw (e, d) (λ t q. cc)
    ]
  ]

  try_thematic-HasSegments : (line : RawLine) → Holds HasSegments (try_thematic source line)
  unfolding try_thematic
  try_thematic-HasSegments line = elim (Bool-cases (is_thematic line.text)) [
    | inl e ↦ rw e (λ t q. cc)
    | inr e ↦ rw e tt
  ]

  try_blockquote-HasSegments :
      (line : RawLine) (lines : List RawLine) → Holds Found (try_blockquote source line lines)
  unfolding try_blockquote quote_block segments_from
  try_blockquote-HasSegments line lines = elim (Option-cases (quoted line.text)) [
    | inl e ↦ rw (Holds, try_blockquote, e) tt
    | inr (segment, e) ↦ rw (Holds, try_blockquote, e) (λ t q. cc)
  ]

  try_heading-HasSegments : (line : RawLine) → Holds HasSegments (try_heading source line)
  unfolding try_heading
  try_heading-HasSegments line = elim (Option-cases (heading_of line.text)) [
    | inl e ↦ rw (Holds, try_heading, e) tt
    | inr (m, e) ↦ rw (Holds, try_heading, e) (λ t q. cc)
  ]

  try_list_item-HasSegments : (line : RawLine) → Holds HasSegments (try_list_item source line)
  unfolding try_list_item list_block
  try_list_item-HasSegments line = elim (Option-cases (bullet line.text)) [
    | inr (m, e) ↦ rw (Holds, try_list_item, e) (λ t q. cc)
    | inl e ↦ elim (Option-cases (numbered line.text)) [
      | inl d ↦ rw (Holds, try_list_item, e, d) tt
      | inr (m, d) ↦ rw (Holds, try_list_item, e, d) (λ t q. cc)
    ]
  ]

  next_block-HasSegments :
      (line : RawLine) (lines : List RawLine) → Found (next_block source line lines)
  unfolding consume_paragraph paragraph_block
  next_block-HasSegments line lines =
      next_block-Holds source Found line lines (try_fence-HasSegments line lines)
        (try_table-HasSegments line lines) (try_thematic-HasSegments line)
        (try_blockquote-HasSegments line lines) (try_heading-HasSegments line)
        (try_list_item-HasSegments line) (λ t q. cc)

  round-HasSegments :
      (line : RawLine) (lines : List RawLine) → Holds HasSegments (round source line lines).0
  unfolding round
  round-HasSegments line lines = elim (Bool-cases (length (trim line.text) == 0)) [
    | inl e ↦ rw e tt
    | inr e ↦ rw e (next_block-HasSegments line lines)
  ]

  scan_from-HasSegments :
      (fuel : ℕ) (lines : List RawLine) → All HasSegments (scanned (scan_from source fuel lines))
  unfolding scan_from
  scan_from-HasSegments zero [] = tt
  scan_from-HasSegments zero (line ∷ lines) = tt
  scan_from-HasSegments (suc fuel) [] = tt
  scan_from-HasSegments (suc fuel) (line ∷ lines) =
      scanned-All source HasSegments (round source line lines).0
        (scan_from source fuel (round source line lines).1) (round-HasSegments line lines)
        (scan_from-HasSegments fuel (round source line lines).1)

  -- The blocks of the candidates are blocks of the document.
  run-All : (P : Block → Type 0) (blocks : List Block) → All P blocks → All P (run blocks)
  unfolding run
  run-All P [] h = tt
  run-All P (table t ∷ blocks) (p, h) = (p, run-All P blocks h)
  run-All P (fence f ∷ blocks) (p, h) = (p, run-All P blocks h)
  run-All P (heading b ∷ blocks) h = tt
  run-All P (thematic_break b ∷ blocks) h = tt
  run-All P (paragraph b ∷ blocks) h = tt
  run-All P (list_item b ∷ blocks) h = tt
  run-All P (blockquote b ∷ blocks) h = tt

  attach_all-All :
      (P : Block → Type 0) (blocks : List Block) (e : Example)
      → All P e.body
      → All P blocks
      → All P (attach_all source blocks e).body
  unfolding attach_all
  attach_all-All P [] e h k = h
  attach_all-All P (b ∷ blocks) e h (p, k) =
      attach_all-All P blocks (attach source b e) (All-append P e.body (b ∷ []) h (p, tt)) k

  grouped-All :
      (P : Block → Type 0) (past : List Heading) (delimited : Bool) (blocks : List Block)
      → All P blocks
      → All (λ ex. All P ex.body) (grouped source past delimited blocks)
  unfolding grouped
  grouped-All P past d [] h = tt
  grouped-All P past d (heading b ∷ blocks) (p, h) = grouped-All P (b ∷ past) true blocks h
  grouped-All P past d (thematic_break b ∷ blocks) (p, h) = grouped-All P past true blocks h
  grouped-All P past d (table b ∷ blocks) (p, h) = grouped-All P past d blocks h
  grouped-All P past d (fence b ∷ blocks) (p, h) = grouped-All P past d blocks h
  grouped-All P past d (paragraph b ∷ blocks) (p, h) = (
    attach_all-All P (run blocks) _ (p, tt) (run-All P blocks h),
    grouped-All P past false blocks h,
  )
  grouped-All P past d (list_item b ∷ blocks) (p, h) = (
    attach_all-All P (run blocks) _ (p, tt) (run-All P blocks h),
    grouped-All P past false blocks h,
  )
  grouped-All P past d (blockquote b ∷ blocks) (p, h) = (
    attach_all-All P (run blocks) _ (p, tt) (run-All P blocks h),
    grouped-All P past false blocks h,
  )

pub parse-IsSegmented : (path source : Text) → IsSegmented (parse path source)
unfolding parse scan
parse-IsSegmented path source =
    subst (All (λ ex. All HasSegments ex.body)) (sym (structure-grouped path source (scan source)))
      (grouped-All source HasSegments [] true (scan source)
        (scan_from-HasSegments source (length (split_lines source)) (split_lines source)))

-- a workspace whose documents were parsed from sources
abbrev pub IsParsed : Text × Doc → Type 0
IsParsed (key, doc) = (path : Text) × (source : Text) × (doc ≡ parse path source)

IsParsed-IsSegmented : (p : Text × Doc) → IsParsed p → IsSegmented p.1
IsParsed-IsSegmented (key, doc) (path, source, e) = rw e (parse-IsSegmented path source)

-- Whatever the source of a document is, and however the references are nested: its lines are scanned to
-- the end, and planning it in a workspace of documents that were parsed too returns a plan, with the
-- diagnostics that were reported; if the regular expression engine behaves as documented, and no
-- author's `parse` throws on what its expression matches.
pub plan-parse_total :
    (unicode : Unicode) (engine : Engine) (registry : Registry) (workspace : OathWorkspace)
    (path source : Text)
    → IsEngine engine
    → Parses engine
    → All IsParsed workspace.docs
    → (blocks : List Block) × (p : ExecutionPlan) × (scan_from source
          (length (split_lines source))
          (split_lines source)
        ≡ some blocks)
      × (plan unicode engine registry workspace (structure path source blocks)
          ≡ planned p p.diagnostics)
plan-parse_total unicode engine registry workspace path source law parses h =
    let (p, e) =
      plan_total unicode engine registry workspace (parse path source) law parses
        (parse-IsSegmented path source) (All-map IsParsed-IsSegmented workspace.docs h) in
    (scan source, p, scan_ends source, unfold parse in e)
