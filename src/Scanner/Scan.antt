-- ===== src/Scanner/Scan.antt =====
-- `scan`: the loop over the lines; and `parse`, typescript/packages/core/src/parse.ts.
use varar.Base.{ℕ, zero, suc, List, [], ◌∷◌, Option, none, some, length, ◌==◌, if◌then◌else◌}
use mathlib.Core.Option
use varar.Text.{Text, trim}
use varar.Ast.{Block, Doc}
use varar.Structurer.{structure}
use varar.Scanner.{RawLine, split_lines}
use varar.Scanner.Blocks.{
  try_fence, try_table, try_thematic, try_blockquote, try_heading, try_list_item, consume_paragraph,
}

abbrev pub and_then : Option Block → List RawLine → Block × List RawLine → Block × List RawLine
and_then none lines otherwise = otherwise
and_then (some b) lines otherwise = (b, lines)

abbrev pub or_try : Option (Block × List RawLine) → Block × List RawLine → Block × List RawLine
or_try none otherwise = otherwise
or_try (some found) otherwise = found

module _ (source : Text) where
  -- the block at a line that is not blank, and the lines behind it: the first recogniser that matches
  unfoldable pub next_block : RawLine → List RawLine → Block × List RawLine
  unfolding try_fence try_table try_thematic try_blockquote try_heading try_list_item
      consume_paragraph
  next_block line lines = or_try (try_fence source line lines) (
      or_try (try_table source line lines) (
        and_then (try_thematic source line) lines (
          or_try (try_blockquote source line lines) (
            and_then (try_heading source line) lines
              (and_then (try_list_item source line) lines (consume_paragraph source line lines))))))

  -- one round: the block that is pushed, and the lines left
  unfoldable pub round : RawLine → List RawLine → Option Block × List RawLine
  unfolding next_block
  round line lines =
      let (b, rest) = next_block line lines in
      if length (trim line.text) == 0 then (none, lines) else (some b, rest)

  abbrev pub push : Option Block → List Block → List Block
  push none blocks = blocks
  push (some b) blocks = b ∷ blocks

  -- The loop, with fuel: `none` means that the fuel ran out with lines left. Every round takes a line,
  -- so the number of lines is enough.
  unfoldable pub scan_from : (fuel : ℕ) → List RawLine → Option (List Block)
  unfolding round
  scan_from zero [] = some []
  scan_from zero (line ∷ lines) = none
  scan_from (suc fuel) [] = some []
  scan_from (suc fuel) (line ∷ lines) =
      let (pushed, rest) = round line lines in Option.map (push pushed) (scan_from fuel rest)

-- the blocks that the loop has pushed; the other case does not occur
abbrev pub scanned : Option (List Block) → List Block
scanned none = []
scanned (some blocks) = blocks

unfoldable pub scan : Text → List Block
unfolding scan_from split_lines
scan source = scanned (scan_from source (length (split_lines source)) (split_lines source))

unfoldable pub parse : (path source : Text) → Doc
unfolding scan structure
parse path source = structure path source (scan source)
