-- ===== src/Scanner/Blocks.antt =====
-- The recognisers of scanner.ts: one block from the lines in front, with the lines behind it.
use varar.Base.{
  ℕ, suc, ◌+◌, ◌-◌, Bool, true, false, not, ◌||◌, ◌==◌, List, [], ◌∷◌, map, Option, none, some, leb,
  if◌then◌else◌, length,
}
use varar.Text.{Text, newline, slice, trim, index_of_text, join_on}
use varar.Span.{Span, span_from_offsets}
use varar.Ast.{
  SegmentOffset, Row, Block, heading, paragraph, list_item, blockquote, table, fence,
  thematic_break,
}
use varar.TableCells.{parse_row_cells}
use varar.Scanner.{RawLine}
use varar.Scanner.Patterns.{
  ListMarker, is_thematic, bullet, numbered, quoted, heading_mark, heading_of, fence_mark, is_row,
  is_delimiter_row,
}

-- `lineStart + line.indexOf(text)`; the text is a part of the line, so it is found
unfoldable pub text_start : RawLine → Text → ℕ
unfolding index_of_text
text_start line text = elim (index_of_text text line.text) [
  | none ↦ line.start_offset - 1
  | some i ↦ line.start_offset + i
]

-- The variables of `tryFence`.
pub record FenceBody : Type 0 where
  pub body_start : Option ℕ
  pub body_end : Option ℕ
  pub end_offset : ℕ

abbrev pub or_else : Option ℕ → ℕ → ℕ
or_else none n = n
or_else (some m) n = m

abbrev pub longer : RawLine → FenceBody → FenceBody
longer ln b = record b {
  body_start = some (or_else b.body_start ln.start_offset);
  body_end = some (suc ln.end_offset);
}

-- whether the line closes a fence whose mark has the length
abbrev pub closes_fence : ℕ → Option (ℕ × Text) → Bool
closes_fence mark none = false
closes_fence mark (some (n, info)) = leb mark n

-- the lines of a quote behind its first one: the segments with their lines, and the lines left
unfoldable pub quoted_lines : List RawLine → List (RawLine × Text) × List RawLine
unfolding quoted
quoted_lines [] = ([], [])
quoted_lines (ln ∷ lines) =
    let (more, rest) = quoted_lines lines in
    elim (quoted ln.text) [ none ↦ ([], ln ∷ lines) | some segment ↦ ((ln, segment) ∷ more, rest) ]

-- the segment map, from the offset in the joined text on
unfoldable pub segments_from : ℕ → List (RawLine × Text) → List SegmentOffset
unfolding text_start
segments_from at [] = []
segments_from at ((ln, segment) ∷ quote) =
    record { text_offset = at; source_offset = text_start ln segment }
    ∷ segments_from (suc (at + length segment)) quote

-- the end of the last line
unfoldable pub last_end : ℕ → List (RawLine × Text) → ℕ
last_end end_offset [] = end_offset
last_end end_offset ((ln, segment) ∷ quote) = last_end ln.end_offset quote

abbrev pub segment_text : RawLine × Text → Text
segment_text (ln, segment) = segment

-- the loop
unfoldable pub fence_body : ℕ → FenceBody → List RawLine → FenceBody × List RawLine
unfolding fence_mark
fence_body mark b [] = (b, [])
fence_body mark b (ln ∷ lines) =
    let behind = fence_body mark (longer ln b) lines in
    if closes_fence mark (fence_mark ln.text)
    then (record b { end_offset = ln.end_offset }, lines)
    else behind

-- the end of the last row
unfoldable pub rows_end : ℕ → List Row → ℕ
rows_end end_offset [] = end_offset
rows_end end_offset (r ∷ rows) = rows_end r.span.end_offset rows

abbrev pub is_found {ℓ} : {A : Type ℓ} → Option A → Bool
is_found none = false
is_found (some a) = true

-- the tests at which a paragraph ends
unfoldable pub interrupts : Text → Bool
unfolding heading_mark bullet numbered quoted fence_mark is_row is_thematic
interrupts text =
    length (trim text) == 0
    || is_found (heading_mark text)
    || is_found (bullet text)
    || is_found (numbered text)
    || is_found (quoted text)
    || is_found (fence_mark text)
    || is_row text
    || is_thematic text

-- the end of the paragraph's last line, and the lines left
unfoldable pub paragraph_end : ℕ → List RawLine → ℕ × List RawLine
unfolding interrupts
paragraph_end end_offset [] = (end_offset, [])
paragraph_end end_offset (ln ∷ lines) =
    let behind = paragraph_end ln.end_offset lines in
    if interrupts ln.text then (end_offset, ln ∷ lines) else behind

module _ (source : Text) where
  abbrev pub line_span : RawLine → Span
  line_span line = span_from_offsets source line.start_offset line.end_offset

  -- `tryThematic`
  unfoldable pub try_thematic : RawLine → Option Block
  unfolding is_thematic span_from_offsets
  try_thematic line =
      if is_thematic line.text
      then some (thematic_break (record { span = line_span line }))
      else none

  -- `tryHeading`
  unfoldable pub try_heading : RawLine → Option Block
  unfolding heading_of span_from_offsets
  try_heading line = elim (heading_of line.text) [
    | none ↦ none
    | some (level, text) ↦
        some (heading (record { level = level; text = text; span = line_span line }))
  ]

  unfoldable pub list_block : RawLine → (ordered : Bool) → ListMarker → Block
  unfolding text_start span_from_offsets
  list_block line ordered m =
      let marker_start = line.start_offset + m.indent in
      list_item (record {
        text = m.text;
        span = line_span line;
        segment_map = record { text_offset = 0; source_offset = text_start line m.text } ∷ [];
        ordered = ordered;
        marker_span = span_from_offsets source marker_start (marker_start + m.width);
      })

  -- `tryListItem`
  unfoldable pub try_list_item : RawLine → Option Block
  unfolding bullet numbered list_block
  try_list_item line = elim (bullet line.text) [
    | some m ↦ some (list_block line false m)
    | none ↦ elim (numbered line.text) [ some m ↦ some (list_block line true m) | none ↦ none ]
  ]

  unfoldable pub quote_block : RawLine → List (RawLine × Text) → Block
  unfolding segments_from last_end span_from_offsets join_on
  quote_block first quote = blockquote (record {
    text = join_on newline (map segment_text quote);
    span = span_from_offsets source first.start_offset (last_end first.end_offset quote);
    segment_map = segments_from 0 quote;
  })

  -- `tryBlockquote`
  unfoldable pub try_blockquote : RawLine → List RawLine → Option (Block × List RawLine)
  unfolding quoted quoted_lines quote_block
  try_blockquote first lines =
      let (more, rest) = quoted_lines lines in
      elim (quoted first.text) [
        | none ↦ none
        | some segment ↦ some (quote_block first ((first, segment) ∷ more), rest)
      ]

  abbrev body_text : FenceBody → Text
  body_text b = elim b.body_start [
    | none ↦ []
    | some start ↦ elim b.body_end [ none ↦ [] | some end ↦ slice source start end ]
  ]

  unfoldable pub fence_block : RawLine → Text → FenceBody → Block
  unfolding span_from_offsets
  fence_block start info b = fence (record {
    span = span_from_offsets source start.start_offset b.end_offset;
    info = trim info;
    body = body_text b;
    body_span =
        span_from_offsets source (or_else b.body_start start.end_offset)
          (or_else b.body_end start.end_offset);
  })

  -- `tryFence`; a fence that is never closed takes all lines
  unfoldable pub try_fence : RawLine → List RawLine → Option (Block × List RawLine)
  unfolding fence_mark fence_body fence_block
  try_fence start lines = elim (fence_mark start.text) [
    | none ↦ none
    | some (mark, info) ↦
        let (b, rest) =
          fence_body mark
            (record { body_start = none; body_end = none; end_offset = start.end_offset }) lines in
        some (fence_block start info b, rest)
  ]

  unfoldable pub row_of : RawLine → Row
  unfolding parse_row_cells span_from_offsets
  row_of line =
      let cells = parse_row_cells line.text line.start_offset source in
      record {
        cells = map (λ c. c.0) cells;
        cell_spans = map (λ c. c.1) cells;
        span = line_span line;
      }

  unfoldable pub rows_of : List RawLine → List Row × List RawLine
  unfolding is_row row_of
  rows_of [] = ([], [])
  rows_of (ln ∷ lines) =
      let (more, rest) = rows_of lines in
      if is_row ln.text then (row_of ln ∷ more, rest) else ([], ln ∷ lines)

  unfoldable pub table_block : RawLine → RawLine → List Row → Block
  unfolding row_of rows_end span_from_offsets
  table_block header delim rows = table (record {
    span = span_from_offsets source header.start_offset (rows_end delim.end_offset rows);
    header = row_of header;
    rows = rows;
  })

  -- `tryTable`
  unfoldable pub try_table : RawLine → List RawLine → Option (Block × List RawLine)
  unfolding is_row is_delimiter_row rows_of table_block
  try_table header [] = none
  try_table header (delim ∷ lines) =
      let (rows, rest) = rows_of lines in
      if not (is_row header.text)
      then none
      else if not (is_delimiter_row delim.text)
      then none
      else some (table_block header delim rows, rest)

  unfoldable pub paragraph_block : ℕ → ℕ → Block
  unfolding span_from_offsets
  paragraph_block start_offset end_offset = paragraph (record {
    text = slice source start_offset end_offset;
    span = span_from_offsets source start_offset end_offset;
    segment_map = record { text_offset = 0; source_offset = start_offset } ∷ [];
  })

  -- `consumeParagraph`
  unfoldable pub consume_paragraph : RawLine → List RawLine → Block × List RawLine
  unfolding paragraph_end paragraph_block
  consume_paragraph first lines =
      let (end_offset, rest) = paragraph_end first.end_offset lines in
      (paragraph_block first.start_offset end_offset, rest)
