-- ===== src/Scanner/Taken.antt =====
-- Which lines a recogniser takes: the first of the lines, and some that follow it.
use varar.Base.{ℕ, List, [], ◌∷◌, ◌++◌, ◌≡◌, refl, ap, Bool-cases, Option-cases, inl, inr}
use varar.Text.{Text}
use varar.Span.{span_from_offsets}
use varar.Ast.{Block, block_span}
use varar.Scanner.{RawLine}
use varar.Scanner.Patterns.{
  is_thematic, bullet, numbered, quoted, heading_of, fence_mark, is_row, is_delimiter_row,
}
use varar.Scanner.Blocks.{
  try_thematic, try_heading, list_block, try_list_item, quoted_lines, quote_block, try_blockquote,
  FenceBody, longer, closes_fence, fence_body, fence_block, try_fence, rows_of, table_block,
  try_table, interrupts, paragraph_end, paragraph_block, consume_paragraph,
}
use varar.Scanner.Scan.{next_block}
use varar.Scanner.Rounds.{Holds, next_block-Holds}

-- Some of the lines are taken, in order, and the others left.
abbrev pub Leaves : List RawLine → List RawLine → Type 0
Leaves rest lines = (taken : List RawLine) × (lines ≡ taken ++ rest)

none_taken : (lines : List RawLine) → Leaves lines lines
none_taken lines = ([], refl)

one_more :
    (line : RawLine) (rest lines : List RawLine) → Leaves rest lines → Leaves rest (line ∷ lines)
one_more line rest lines (taken, e) = (line ∷ taken, ap (λ ls. line ∷ ls) e)

fence_body-Leaves :
    (mark : ℕ) (b : FenceBody) (lines : List RawLine) → Leaves (fence_body mark b lines).1 lines
unfolding fence_body
fence_body-Leaves mark b [] = none_taken []
fence_body-Leaves mark b (ln ∷ lines) = elim (Bool-cases (closes_fence mark (fence_mark ln.text))) [
  | inl e ↦ rw e (one_more ln lines lines (none_taken lines))
  | inr e ↦ rw e (one_more ln _ lines (fence_body-Leaves mark (longer ln b) lines))
]

quoted_lines-Leaves : (lines : List RawLine) → Leaves (quoted_lines lines).1 lines
unfolding quoted_lines
quoted_lines-Leaves [] = none_taken []
quoted_lines-Leaves (ln ∷ lines) = elim (Option-cases (quoted ln.text)) [
  | inl e ↦ rw (quoted_lines, e) (none_taken (ln ∷ lines))
  | inr (segment, e) ↦ rw (quoted_lines, e) (one_more ln _ lines (quoted_lines-Leaves lines))
]

paragraph_end-Leaves : (from : ℕ) (lines : List RawLine) → Leaves (paragraph_end from lines).1 lines
unfolding paragraph_end
paragraph_end-Leaves from [] = none_taken []
paragraph_end-Leaves from (ln ∷ lines) = elim (Bool-cases (interrupts ln.text)) [
  | inl e ↦ rw e (none_taken (ln ∷ lines))
  | inr e ↦ rw e (one_more ln _ lines (paragraph_end-Leaves ln.end_offset lines))
]

module _ (source : Text) where
  rows_of-Leaves : (lines : List RawLine) → Leaves (rows_of source lines).1 lines
  unfolding rows_of
  rows_of-Leaves [] = none_taken []
  rows_of-Leaves (ln ∷ lines) = elim (Bool-cases (is_row ln.text)) [
    | inl e ↦ rw e (one_more ln _ lines (rows_of-Leaves lines))
    | inr e ↦ rw e (none_taken (ln ∷ lines))
  ]

  -- The block starts where the line does, and what is left are the last of the lines.
  abbrev pub Takes : RawLine → List RawLine → Block × List RawLine → Type 0
  Takes line lines (b, rest) = ((block_span b).start_offset ≡ line.start_offset) × Leaves rest lines

  try_fence-Takes :
      (line : RawLine) (lines : List RawLine)
      → Holds (Takes line lines) (try_fence source line lines)
  unfolding try_fence fence_block span_from_offsets
  try_fence-Takes line lines = elim (Option-cases (fence_mark line.text)) [
    | inl e ↦ rw (Holds, try_fence, e) tt
    | inr ((mark, info), e) ↦ rw (Holds, try_fence, e) (refl, fence_body-Leaves mark _ lines)
  ]

  try_table-Takes :
      (line : RawLine) (lines : List RawLine)
      → Holds (Takes line lines) (try_table source line lines)
  unfolding try_table table_block span_from_offsets
  try_table-Takes line [] = tt
  try_table-Takes line (delim ∷ lines) = elim (Bool-cases (is_row line.text)) [
    | inr e ↦ rw e tt
    | inl e ↦ elim (Bool-cases (is_delimiter_row delim.text)) [
      | inr d ↦ rw (e, d) tt
      | inl d ↦ rw (e, d) (refl, one_more delim _ lines (rows_of-Leaves lines))
    ]
  ]

  try_blockquote-Takes :
      (line : RawLine) (lines : List RawLine)
      → Holds (Takes line lines) (try_blockquote source line lines)
  unfolding try_blockquote quote_block span_from_offsets
  try_blockquote-Takes line lines = elim (Option-cases (quoted line.text)) [
    | inl e ↦ rw (Holds, try_blockquote, e) tt
    | inr (segment, e) ↦ rw (Holds, try_blockquote, e) (refl, quoted_lines-Leaves lines)
  ]

  try_thematic-Takes :
      (line : RawLine) (lines : List RawLine)
      → Holds (λ b. Takes line lines (b, lines)) (try_thematic source line)
  unfolding try_thematic span_from_offsets
  try_thematic-Takes line lines = elim (Bool-cases (is_thematic line.text)) [
    | inl e ↦ rw e (refl, none_taken lines)
    | inr e ↦ rw e tt
  ]

  try_heading-Takes :
      (line : RawLine) (lines : List RawLine)
      → Holds (λ b. Takes line lines (b, lines)) (try_heading source line)
  unfolding try_heading span_from_offsets
  try_heading-Takes line lines = elim (Option-cases (heading_of line.text)) [
    | inl e ↦ rw (Holds, try_heading, e) tt
    | inr (m, e) ↦ rw (Holds, try_heading, e) (refl, none_taken lines)
  ]

  try_list_item-Takes :
      (line : RawLine) (lines : List RawLine)
      → Holds (λ b. Takes line lines (b, lines)) (try_list_item source line)
  unfolding try_list_item list_block span_from_offsets
  try_list_item-Takes line lines = elim (Option-cases (bullet line.text)) [
    | inr (m, e) ↦ rw (Holds, try_list_item, e) (refl, none_taken lines)
    | inl e ↦ elim (Option-cases (numbered line.text)) [
      | inl d ↦ rw (Holds, try_list_item, e, d) tt
      | inr (m, d) ↦ rw (Holds, try_list_item, e, d) (refl, none_taken lines)
    ]
  ]

  consume_paragraph-Takes :
      (line : RawLine) (lines : List RawLine)
      → Takes line lines (consume_paragraph source line lines)
  unfolding consume_paragraph paragraph_block span_from_offsets
  consume_paragraph-Takes line lines = (refl, paragraph_end-Leaves line.end_offset lines)

  pub next_block-Takes :
      (line : RawLine) (lines : List RawLine) → Takes line lines (next_block source line lines)
  next_block-Takes line lines =
      next_block-Holds source (Takes line lines) line lines (try_fence-Takes line lines)
        (try_table-Takes line lines) (try_thematic-Takes line lines)
        (try_blockquote-Takes line lines) (try_heading-Takes line lines)
        (try_list_item-Takes line lines) (consume_paragraph-Takes line lines)
