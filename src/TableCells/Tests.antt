-- ===== src/TableCells/Tests.antt =====
-- Runs of table-cells.ts, and its theorem at a concrete row.
use varar.Base.{[], ◌∷◌, ◌≡◌, refl, All, map, length, ◌-◌}
use varar.Text.{Text, codes, trimmed_length, leading}
use varar.TableCells.{pipe, parse_row_cells}
use varar.TableCells.Counts.{count, length-parse_row_cells}
use varar.TableCells.Exact.{IsExact, parse_row_cells-IsExact}

abbrev row : Text
row = codes "| ab |c  |"

abbrev source : Text
source = codes "x\n| ab |c  |\n"

cells_are_trimmed : map (λ c. c.0) (parse_row_cells row 2 source) ≡ codes "ab" ∷ codes "c" ∷ []
unfolding parse_row_cells trimmed_length leading
cells_are_trimmed = refl

no_bars : parse_row_cells (codes "ab|") 0 (codes "ab|") ≡ []
unfolding parse_row_cells
no_bars = refl

parse_row_cells-IsExact_example : All (IsExact source) (parse_row_cells row 2 source)
parse_row_cells-IsExact_example = parse_row_cells-IsExact row 2 source refl

length-parse_row_cells_example : length (parse_row_cells row 2 source) ≡ count pipe row - 1
length-parse_row_cells_example = length-parse_row_cells row 2 source
