-- ===== src/Span.antt =====
-- typescript/packages/core/src/span.ts: source ranges with their line and column numbers.
pub mod Lines
pub mod Order
mod Tests
use varar.Base.{ℕ, zero, suc, ◌+◌, [], ◌∷◌, ◌==◌, if◌then◌else◌}
use varar.Text.{Text, newline}

pub record Span : Type 0 where
  pub start_offset : ℕ
  pub end_offset : ℕ
  pub start_line : ℕ
  pub start_col : ℕ
  pub end_line : ℕ
  pub end_col : ℕ

pub record Position : Type 0 where
  pub line : ℕ
  pub col : ℕ

-- one round of the loop, on the character read
unfoldable pub advance : ℕ → Position → Position
advance c p =
    if c == newline
    then record { line = p.line + 1; col = 1 }
    else record { line = p.line; col = p.col + 1 }

-- The rounds that are left. Behind the end of the source `charCodeAt` is NaN, which is no newline.
unfoldable pub line_col_from : Text → ℕ → Position → Position
unfolding advance
line_col_from source zero p = p
line_col_from [] (suc n) p = line_col_from [] n (record p { col = p.col + 1 })
line_col_from (c ∷ source) (suc n) p = line_col_from source n (advance c p)

unfoldable pub line_col : Text → ℕ → Position
unfolding line_col_from
line_col source offset = line_col_from source offset (record { line = 1; col = 1 })

unfoldable pub span_from_offsets : Text → ℕ → ℕ → Span
unfolding line_col
span_from_offsets source start end =
    let first = line_col source start in
    let last = line_col source end in
    record {
      start_offset = start;
      end_offset = end;
      start_line = first.line;
      start_col = first.col;
      end_line = last.line;
      end_col = last.col;
    }
