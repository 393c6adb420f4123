-- ===== src/Span/Tests.antt =====
-- Runs of span.ts, and its theorems at concrete offsets.
use varar.Base.{◌+◌, ◌≡◌, refl, arith, length, take}
use varar.Text.{newline, split_on}
use varar.Span.{line_col, span_from_offsets}
use varar.Span.Lines.{last_length, line_col-split_on}
use varar.Span.Order.{Before, line_col-Before}
use varar.Text.{codes}
use varar.Text.{Text}

abbrev two_lines : Text
two_lines = codes "ab\ncd"

line_col_runs : line_col two_lines 4 ≡ record { line = 2; col = 2 }
unfolding line_col
line_col_runs = refl

-- A line break ends its line: the offset behind it is column 1 of the next.
span_runs : span_from_offsets two_lines 1 3 ≡ record {
  start_offset = 1;
  end_offset = 3;
  start_line = 1;
  start_col = 2;
  end_line = 2;
  end_col = 1;
}
unfolding span_from_offsets
span_runs = refl

line_col-Before_example : Before (line_col two_lines 2) (line_col two_lines 3)
line_col-Before_example = line_col-Before two_lines 2 3 (omega arith)

line_col-split_on_example :
    ((line_col two_lines 4).line ≡ length (split_on newline (take 4 two_lines)))
    × ((line_col two_lines 4).col ≡ 1 + last_length (split_on newline (take 4 two_lines)))
line_col-split_on_example = line_col-split_on two_lines 4 (omega arith)
