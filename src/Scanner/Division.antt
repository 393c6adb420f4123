-- ===== src/Scanner/Division.antt =====
-- How the lines of a source are divided among the blocks that `scan` finds.
use mathlib.Core.Option
use varar.Base.{Bool, true, false, List, [], ◌∷◌, ◌++◌, Option, none, some, ◌≡◌, length, ◌==◌, All}
use varar.Text.{Text, trim}
use varar.Ast.{Block, block_span}
use varar.Scanner.{RawLine}

-- lines that belong together, and the block that they make, if they make one
pub record Part : Type 0 where
  pub first : RawLine
  pub others : List RawLine
  pub block : Option Block

abbrev lines_of : List Part → List RawLine
lines_of [] = []
lines_of (p ∷ parts) = p.first ∷ (p.others ++ lines_of parts)

abbrev with_block : Option Block → List Block → List Block
with_block none blocks = blocks
with_block (some b) blocks = b ∷ blocks

abbrev blocks_of : List Part → List Block
blocks_of [] = []
blocks_of (p ∷ parts) = with_block p.block (blocks_of parts)

abbrev is_blank : RawLine → Bool
is_blank line = length (trim line.text) == 0

-- A blank line alone makes no block. A block starts where its first line does, which is not blank.
abbrev IsPart : Part → Type 0
IsPart p = elim p.block [
  | none ↦ (is_blank p.first ≡ true) × (p.others ≡ [])
  | some b ↦ (is_blank p.first ≡ false) × ((block_span b).start_offset ≡ p.first.start_offset)
]

-- The lines are divided into parts, in order, and the blocks are theirs.
abbrev pub Divides : List RawLine → List Block → Type 0
Divides lines blocks =
    (parts : List Part) × (lines_of parts ≡ lines) × (blocks_of parts ≡ blocks) × All IsPart parts

module _ (source : Text) where
  abbrev EndsDivided : List RawLine → Option (List Block) → Type 0
  EndsDivided lines none = Unit
  EndsDivided lines (some blocks) = Divides lines blocks
