-- ===== src/Scanner.antt =====
-- typescript/packages/core/src/scanner.ts: from the lines of a document to its blocks.
pub mod Patterns
pub mod Blocks
pub mod Lines
pub mod Rounds
pub mod Order
pub mod Reading
pub mod Taken
pub mod Division
pub mod Segmented
pub mod Places
pub mod Markers
pub mod Exact
pub mod Lifted
pub mod Scan
mod Tests
use varar.Base.{ℕ, suc, ◌+◌, List, [], ◌∷◌, length}
use varar.Text.{Text, newline, split_on}

pub record RawLine : Type 0 where
  pub text : Text
  pub start_offset : ℕ
  pub end_offset : ℕ

-- the lines with their offsets; the first one starts at `start`
unfoldable pub lines_from : ℕ → List Text → List RawLine
lines_from start [] = []
lines_from start (t ∷ texts) =
    record { text = t; start_offset = start; end_offset = start + length t }
    ∷ lines_from (suc (start + length t)) texts

unfoldable pub split_lines : Text → List RawLine
unfolding lines_from split_on
split_lines source = lines_from 0 (split_on newline source)
