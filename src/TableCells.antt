-- ===== src/TableCells.antt =====
-- typescript/packages/core/src/table-cells.ts: the cells of a table row and their places.
pub mod Counts
pub mod Exact
mod Tests
use varar.Base.{
  ℕ, suc, ◌+◌, ◌-◌, Bool, true, false, List, [], ◌∷◌, Option, none, some, ◌==◌, leb, if◌then◌else◌,
  length,
}
use mathlib.Core.Option
use varar.Text.{Text, slice, trim, trim_start, index_of, last_index_of, split_on}
use varar.Span.{Span, span_from_offsets}

abbrev pub pipe : ℕ
pipe = b'|'

-- the loop over the segments, `at` being `lineStart + innerStart + cursor`
unfoldable pub cells_from : Text → (at : ℕ) → List Text → List (Text × Span)
unfolding span_from_offsets
cells_from source at [] = []
cells_from source at (seg ∷ segs) =
    let trimmed = trim seg in
    let abs_start = at + (length seg - length (trim_start seg)) in
    (trimmed, span_from_offsets source abs_start (abs_start + length trimmed))
    ∷ cells_from source (at + (length seg + 1)) segs

-- the cells between the first and the last bar
unfoldable pub cells_between : Text → ℕ → Text → (first last : ℕ) → List (Text × Span)
unfolding cells_from split_on
cells_between text line_start source first last =
    if leb last first
    then []
    else cells_from source (line_start + (first + 1)) (split_on pipe (slice text (first + 1) last))

unfoldable pub parse_row_cells : Text → ℕ → Text → List (Text × Span)
unfolding cells_between index_of last_index_of
parse_row_cells text line_start source = elim (index_of pipe text) [
  | none ↦ []
  | some first ↦ elim (last_index_of pipe text) [
    | none ↦ []
    | some last ↦ cells_between text line_start source first last
  ]
]
