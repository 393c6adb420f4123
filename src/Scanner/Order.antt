-- ===== src/Scanner/Order.antt =====
-- Where the block of a round stands, and which lines it leaves.
use varar.Base.{
  ℕ, suc, ◌≤◌, List, [], ◌∷◌, none, ◌≡◌, refl, arith, length, Bool-cases, Option-cases, inl, inr,
}
use varar.Text.{Text}
use varar.Span.{span_from_offsets}
use varar.Ast.{Block, block_span}
use varar.Scanner.{RawLine}
use varar.Scanner.Patterns.{
  is_thematic, bullet, numbered, quoted, heading_of, fence_mark, is_row, is_delimiter_row,
}
use varar.Scanner.Blocks.{
  try_thematic, try_heading, list_block, try_list_item, quoted_lines, last_end, quote_block,
  try_blockquote, FenceBody, longer, closes_fence, fence_body, fence_block, try_fence, row_of,
  rows_of, rows_end, table_block, try_table, interrupts, paragraph_end, paragraph_block,
  consume_paragraph,
}
use varar.Scanner.Lines.{AreLines}
use varar.Scanner.Scan.{next_block}
use varar.Scanner.Rounds.{Holds, next_block-Holds}

module _ (source : Text) (high : ℕ) where
  pub AreLines-lower :
      (low low' : ℕ) (lines : List RawLine)
      → low' ≤ low
      → AreLines source low high lines
      → AreLines source low' high lines
  AreLines-lower low low' [] h a = tt
  AreLines-lower low low' (l ∷ lines) h a = (omega arith, a.1, a.2, a.3, a.4, a.5)

  -- From an end of a block in the lines before, more lines are read: the end and the lines left.
  abbrev Advances : ℕ → ℕ → ℕ × List RawLine → Type 0
  Advances from count (end, rest) =
      (from ≤ end) × (end ≤ high) × AreLines source (suc end) high rest × (length rest ≤ count)

  Advances-more :
      (from from' count : ℕ) (x : ℕ × List RawLine)
      → from' ≤ from
      → Advances from count x
      → Advances from' (suc count) x
  Advances-more from from' count x h (a, b, c, d) = (omega arith, b, c, omega arith)

  stays :
      (from : ℕ) (lines : List RawLine)
      → from ≤ high
      → AreLines source (suc from) high lines
      → Advances from (length lines) (from, lines)
  stays from lines h a = (omega arith, h, a, omega arith)

  fence_body-Advances :
      (mark : ℕ) (b : FenceBody) (lines : List RawLine)
      → b.end_offset ≤ high
      → AreLines source (suc b.end_offset) high lines
      → (let (c, rest) = fence_body mark b lines in
          Advances b.end_offset (length lines) (c.end_offset, rest))
  unfolding fence_body
  fence_body-Advances mark b [] h a = stays b.end_offset [] h a
  fence_body-Advances mark b (ln ∷ lines) h a =
      elim (Bool-cases (closes_fence mark (fence_mark ln.text))) [
        | inl e ↦ rw e ((omega arith, a.2, a.5, omega arith))
        | inr e ↦ rw e (
            Advances-more b.end_offset b.end_offset (length lines) _ (omega arith) (
              fence_body-Advances mark (longer ln b) lines h
                (AreLines-lower (suc ln.end_offset) (suc b.end_offset) lines (omega arith) a.5)))
      ]

  quoted_lines-Advances :
      (from : ℕ) (lines : List RawLine)
      → from ≤ high
      → AreLines source (suc from) high lines
      → (let (more, rest) = quoted_lines lines in
          Advances from (length lines) (last_end from more, rest))
  unfolding quoted_lines last_end
  quoted_lines-Advances from [] h a = stays from [] h a
  quoted_lines-Advances from (ln ∷ lines) h a = elim (Option-cases (quoted ln.text)) [
    | inl e ↦ rw (quoted_lines, last_end, e) (stays from (ln ∷ lines) h a)
    | inr (segment, e) ↦
        rw (quoted_lines, last_end, e)
          (Advances-more ln.end_offset from (length lines) _ (omega arith)
            (quoted_lines-Advances ln.end_offset lines a.2 a.5))
  ]

  rows_of-Advances :
      (from : ℕ) (lines : List RawLine)
      → from ≤ high
      → AreLines source (suc from) high lines
      → (let (rows, rest) = rows_of source lines in
          Advances from (length lines) (rows_end from rows, rest))
  unfolding rows_of rows_end row_of span_from_offsets
  rows_of-Advances from [] h a = stays from [] h a
  rows_of-Advances from (ln ∷ lines) h a = elim (Bool-cases (is_row ln.text)) [
    | inl e ↦ rw e (
        Advances-more ln.end_offset from (length lines) _ (omega arith)
          (rows_of-Advances ln.end_offset lines a.2 a.5))
    | inr e ↦ rw e (stays from (ln ∷ lines) h a)
  ]

  paragraph_end-Advances :
      (from : ℕ) (lines : List RawLine)
      → from ≤ high
      → AreLines source (suc from) high lines
      → Advances from (length lines) (paragraph_end from lines)
  unfolding paragraph_end
  paragraph_end-Advances from [] h a = stays from [] h a
  paragraph_end-Advances from (ln ∷ lines) h a = elim (Bool-cases (interrupts ln.text)) [
    | inl e ↦ rw e (stays from (ln ∷ lines) h a)
    | inr e ↦ rw e (
        Advances-more ln.end_offset from (length lines) _ (omega arith)
          (paragraph_end-Advances ln.end_offset lines a.2 a.5))
  ]

  -- The block starts with the line, and the lines left stand behind its end.
  abbrev pub Follows : RawLine → ℕ → Block × List RawLine → Type 0
  Follows line count (b, rest) =
      (end : ℕ) × (block_span b ≡ span_from_offsets source line.start_offset end)
      × Advances line.end_offset count (end, rest)

  abbrev IsLine : RawLine → List RawLine → Type 0
  IsLine line lines = (line.end_offset ≤ high) × AreLines source (suc line.end_offset) high lines

  try_fence-Follows :
      (line : RawLine) (lines : List RawLine)
      → IsLine line lines
      → Holds (Follows line (length lines)) (try_fence source line lines)
  unfolding try_fence fence_block
  try_fence-Follows line lines (h, a) = elim (Option-cases (fence_mark line.text)) [
    | inl e ↦ rw (Holds, try_fence, e) tt
    | inr ((mark, info), e) ↦
        rw (Holds, try_fence, e)
          (
            _,
            refl,
            fence_body-Advances mark
                (record { body_start = none; body_end = none; end_offset = line.end_offset }) lines
                h a,
          )
  ]

  try_table-Follows :
      (line : RawLine) (lines : List RawLine)
      → IsLine line lines
      → Holds (Follows line (length lines)) (try_table source line lines)
  unfolding try_table table_block
  try_table-Follows line [] h = tt
  try_table-Follows line (delim ∷ lines) (h, a) = elim (Bool-cases (is_row line.text)) [
    | inr e ↦ rw e tt
    | inl e ↦ elim (Bool-cases (is_delimiter_row delim.text)) [
      | inr d ↦ rw (e, d) tt
      | inl d ↦
          rw (e, d)
            (
              _,
              refl,
              Advances-more delim.end_offset line.end_offset (length lines) _ (omega arith)
                  (rows_of-Advances delim.end_offset lines a.2 a.5),
            )
    ]
  ]

  try_blockquote-Follows :
      (line : RawLine) (lines : List RawLine)
      → IsLine line lines
      → Holds (Follows line (length lines)) (try_blockquote source line lines)
  unfolding try_blockquote quote_block last_end
  try_blockquote-Follows line lines (h, a) = elim (Option-cases (quoted line.text)) [
    | inl e ↦ rw (Holds, try_blockquote, e) tt
    | inr (segment, e) ↦
        rw (Holds, try_blockquote, e) (_, refl, quoted_lines-Advances line.end_offset lines h a)
  ]

  -- a block of one line
  try_thematic-Follows :
      (line : RawLine) (lines : List RawLine)
      → IsLine line lines
      → Holds (λ b. Follows line (length lines) (b, lines)) (try_thematic source line)
  unfolding try_thematic
  try_thematic-Follows line lines (h, a) = elim (Bool-cases (is_thematic line.text)) [
    | inl e ↦ rw e (_, refl, stays line.end_offset lines h a)
    | inr e ↦ rw e tt
  ]

  try_heading-Follows :
      (line : RawLine) (lines : List RawLine)
      → IsLine line lines
      → Holds (λ b. Follows line (length lines) (b, lines)) (try_heading source line)
  unfolding try_heading
  try_heading-Follows line lines (h, a) = elim (Option-cases (heading_of line.text)) [
    | inl e ↦ rw (Holds, try_heading, e) tt
    | inr ((level, text), e) ↦ rw (Holds, try_heading, e) (_, refl, stays line.end_offset lines h a)
  ]

  try_list_item-Follows :
      (line : RawLine) (lines : List RawLine)
      → IsLine line lines
      → Holds (λ b. Follows line (length lines) (b, lines)) (try_list_item source line)
  unfolding try_list_item list_block
  try_list_item-Follows line lines (h, a) = elim (Option-cases (bullet line.text)) [
    | inr (m, e) ↦ rw (Holds, try_list_item, e) (_, refl, stays line.end_offset lines h a)
    | inl e ↦ elim (Option-cases (numbered line.text)) [
      | inl d ↦ rw (Holds, try_list_item, e, d) tt
      | inr (m, d) ↦ rw (Holds, try_list_item, e, d) (_, refl, stays line.end_offset lines h a)
    ]
  ]

  consume_paragraph-Follows :
      (line : RawLine) (lines : List RawLine)
      → IsLine line lines
      → Follows line (length lines) (consume_paragraph source line lines)
  unfolding consume_paragraph paragraph_block
  consume_paragraph-Follows line lines (h, a) =
      (_, refl, paragraph_end-Advances line.end_offset lines h a)

  pub next_block-Follows :
      (line : RawLine) (lines : List RawLine)
      → IsLine line lines
      → Follows line (length lines) (next_block source line lines)
  next_block-Follows line lines h =
      next_block-Holds source (Follows line (length lines)) line lines
        (try_fence-Follows line lines h) (try_table-Follows line lines h)
        (try_thematic-Follows line lines h) (try_blockquote-Follows line lines h)
        (try_heading-Follows line lines h) (try_list_item-Follows line lines h)
        (consume_paragraph-Follows line lines h)
