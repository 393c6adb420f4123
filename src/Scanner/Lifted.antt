-- ===== src/Scanner/Lifted.antt =====
-- Every scanned block leads back to the source.
use varar.Base.{
  ℕ, zero, suc, Bool, true, false, List, [], ◌∷◌, Option, none, some, ◌≡◌, subst, arith, length,
  Bool-cases, Option-cases, inl, inr, ◌==◌, All,
}
use mathlib.Core.Option
use varar.Text.{Text, trim, slice}
use varar.Ast.{SegmentOffset, Block, block_span}
use varar.Plan.Lifting.{block_text}
use varar.Scanner.{RawLine, split_lines}
use varar.Scanner.Patterns.{
  ListMarker, is_thematic, bullet, numbered, quoted, heading_of, fence_mark, is_row,
  is_delimiter_row,
}
use varar.Scanner.Blocks.{
  text_start, try_thematic, try_heading, list_block, try_list_item, quoted_lines, quote_block,
  try_blockquote, fence_block, try_fence, table_block, try_table, paragraph_block,
  consume_paragraph,
}
use varar.Scanner.Markers.{
  EndsIn, StandsIn, bullet-EndsIn, numbered-EndsIn, quoted-EndsIn, get_elem?-slice,
  text_start-get_elem?,
}
use varar.Scanner.Exact.{IsExact, AreQuoted, one_segment, quote-IsExact}
use varar.Scanner.Lines.{AreLines, split_lines-AreLines}
use varar.Scanner.Scan.{next_block, round, push, scan_from, scanned, scan}
use varar.Scanner.Rounds.{scanned-All, Holds, next_block-Holds}
use varar.Scanner.Reading.{Leaves, round-Leaves}

module _ (source : Text) where
  -- the segment map of the block, if it has one
  abbrev pub HasExactMap : Block → Type 0
  HasExactMap b = (x : Text × List SegmentOffset) → block_text b ≡ some x → IsExact source x

  abbrev ExactFound : Block × List RawLine → Type 0
  ExactFound (b, rest) = HasExactMap b

  here : (x y : Text × List SegmentOffset) → IsExact source x → some x ≡ some y → IsExact source y
  here x y h e = subst (IsExact source) (ground arith) h

  AreLines-StandsIn :
      (low high : ℕ) (lines : List RawLine)
      → AreLines source low high lines
      → All (StandsIn source) lines
  AreLines-StandsIn low high [] a = tt
  AreLines-StandsIn low high (l ∷ lines) a =
      (a.4, AreLines-StandsIn (suc l.end_offset) high lines a.5)

  quoted_lines-AreQuoted :
      (lines : List RawLine) → All (StandsIn source) lines → AreQuoted source (quoted_lines lines).0
  unfolding quoted_lines
  quoted_lines-AreQuoted [] h = tt
  quoted_lines-AreQuoted (ln ∷ lines) (s, h) = elim (Option-cases (quoted ln.text)) [
    | inl e ↦ rw (quoted_lines, e) tt
    | inr (t, e) ↦
        rw (quoted_lines, e) (((s, quoted-EndsIn ln.text t e), quoted_lines-AreQuoted lines h))
  ]

  try_fence-HasExactMap :
      (line : RawLine) (lines : List RawLine) → Holds ExactFound (try_fence source line lines)
  unfolding try_fence fence_block
  try_fence-HasExactMap line lines = elim (Option-cases (fence_mark line.text)) [
    | inl e ↦ rw (Holds, try_fence, e) tt
    | inr (m, e) ↦ rw (Holds, try_fence, e) (λ x q. absurd (cc))
  ]

  try_table-HasExactMap :
      (line : RawLine) (lines : List RawLine) → Holds ExactFound (try_table source line lines)
  unfolding try_table table_block
  try_table-HasExactMap line [] = tt
  try_table-HasExactMap line (delim ∷ lines) = elim (Bool-cases (is_row line.text)) [
    | inr e ↦ rw e tt
    | inl e ↦ elim (Bool-cases (is_delimiter_row delim.text)) [
      | inr d ↦ rw (e, d) tt
      | inl d ↦ rw (e, d) (λ x q. absurd (cc))
    ]
  ]

  try_thematic-HasExactMap : (line : RawLine) → Holds HasExactMap (try_thematic source line)
  unfolding try_thematic
  try_thematic-HasExactMap line = elim (Bool-cases (is_thematic line.text)) [
    | inl e ↦ rw e (λ x q. absurd (cc))
    | inr e ↦ rw e tt
  ]

  try_heading-HasExactMap : (line : RawLine) → Holds HasExactMap (try_heading source line)
  unfolding try_heading
  try_heading-HasExactMap line = elim (Option-cases (heading_of line.text)) [
    | inl e ↦ rw (Holds, try_heading, e) tt
    | inr (m, e) ↦ rw (Holds, try_heading, e) (λ x q. absurd (cc))
  ]

  try_blockquote-HasExactMap :
      (line : RawLine) (lines : List RawLine)
      → All (StandsIn source) (line ∷ lines)
      → Holds ExactFound (try_blockquote source line lines)
  unfolding try_blockquote quote_block
  try_blockquote-HasExactMap line lines (s, h) = elim (Option-cases (quoted line.text)) [
    | inl e ↦ rw (Holds, try_blockquote, e) tt
    | inr (t, e) ↦
        rw (Holds, try_blockquote, e)
          (λ x q.
            here _ x
              (quote-IsExact source ((line, t) ∷ (quoted_lines lines).0)
                ((s, quoted-EndsIn line.text t e), quoted_lines-AreQuoted lines h))
              q)
  ]

  list_block-HasExactMap :
      (line : RawLine) (ordered : Bool) (m : ListMarker)
      → EndsIn line.text m.text
      → StandsIn source line
      → HasExactMap (list_block source line ordered m)
  unfolding list_block
  list_block-HasExactMap line ordered m p s x q =
      here _ x
        (one_segment source m.text (text_start line m.text)
          (λ k c g. text_start-get_elem? source line m.text k c p s g))
        q

  try_list_item-HasExactMap :
      (line : RawLine) → StandsIn source line → Holds HasExactMap (try_list_item source line)
  unfolding try_list_item
  try_list_item-HasExactMap line s = elim (Option-cases (bullet line.text)) [
    | inr (m, e) ↦
        rw (Holds, try_list_item, e)
          (list_block-HasExactMap line false m (bullet-EndsIn line.text m e) s)
    | inl e ↦ elim (Option-cases (numbered line.text)) [
      | inl d ↦ rw (Holds, try_list_item, e, d) tt
      | inr (m, d) ↦
          rw (Holds, try_list_item, e, d)
            (list_block-HasExactMap line true m (numbered-EndsIn line.text m d) s)
    ]
  ]

  paragraph_block-HasExactMap : (a b : ℕ) → HasExactMap (paragraph_block source a b)
  unfolding paragraph_block
  paragraph_block-HasExactMap a b x q =
      here _ x (one_segment source (slice source a b) a (λ k c g. get_elem?-slice source a b k c g))
        q

  next_block-HasExactMap :
      (line : RawLine) (lines : List RawLine)
      → All (StandsIn source) (line ∷ lines)
      → ExactFound (next_block source line lines)
  unfolding consume_paragraph
  next_block-HasExactMap line lines h =
      next_block-Holds source ExactFound line lines (try_fence-HasExactMap line lines)
        (try_table-HasExactMap line lines) (try_thematic-HasExactMap line)
        (try_blockquote-HasExactMap line lines h) (try_heading-HasExactMap line)
        (try_list_item-HasExactMap line h.0) (paragraph_block-HasExactMap line.start_offset _)

  push-HasExactMap :
      (fuel low high : ℕ) (lines : List RawLine) (x : Option Block × List RawLine)
      → ((low : ℕ) (rest : List RawLine)
          → AreLines source low high rest
          → All HasExactMap (scanned (scan_from source fuel rest)))
      → Leaves source high low lines x
      → Holds HasExactMap x.0
      → All HasExactMap (scanned (Option.map (push source x.0) (scan_from source fuel x.1)))
  push-HasExactMap fuel low high lines (none, rest) again l h =
      scanned-All source HasExactMap none (scan_from source fuel rest) tt (again low rest l.0)
  push-HasExactMap fuel low high lines (some b, rest) again l h =
      scanned-All source HasExactMap (some b) (scan_from source fuel rest) h
        (again (suc (block_span b).end_offset) rest l.5)

  round-HasExactMap :
      (line : RawLine) (lines : List RawLine)
      → All (StandsIn source) (line ∷ lines)
      → Holds HasExactMap (round source line lines).0
  unfolding round
  round-HasExactMap line lines h = elim (Bool-cases (length (trim line.text) == 0)) [
    | inl e ↦ rw e tt
    | inr e ↦ rw e (next_block-HasExactMap line lines h)
  ]

  scan_from-HasExactMap :
      (fuel low high : ℕ) (lines : List RawLine)
      → AreLines source low high lines
      → All HasExactMap (scanned (scan_from source fuel lines))
  unfolding scan_from
  scan_from-HasExactMap zero low high [] a = tt
  scan_from-HasExactMap zero low high (line ∷ lines) a = tt
  scan_from-HasExactMap (suc fuel) low high [] a = tt
  scan_from-HasExactMap (suc fuel) low high (line ∷ lines) a =
      push-HasExactMap fuel low high lines (round source line lines)
        (λ l rest b. scan_from-HasExactMap fuel l high rest b)
        (round-Leaves source high low line lines a)
        (round-HasExactMap line lines (AreLines-StandsIn low high (line ∷ lines) a))

-- Every character of the text of a paragraph, list item or quote, but the newlines, is the character of
-- the source at the offset that its own offset is lifted to.
pub scan-HasExactMap : (source : Text) → All (HasExactMap source) (scan source)
unfolding scan
scan-HasExactMap source =
    scan_from-HasExactMap source (length (split_lines source)) 0 (length source)
      (split_lines source) (split_lines-AreLines source)
