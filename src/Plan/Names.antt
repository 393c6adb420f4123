-- ===== src/Plan/Names.antt =====
-- `deriveExampleName` of typescript/packages/core/src/plan.ts.
use varar.Base.{Bool, true, false, ◌||◌, List, [], ◌∷◌, Option, none, some, ◌==◌, if◌then◌else◌}
use varar.Text.{Text, is_space, trim}
use varar.Ast.{Block, paragraph, list_item, blockquote}

-- `body.find(…)`, and the block's text
unfoldable pub primary_text : List Block → Option Text
primary_text [] = none
primary_text (paragraph b ∷ body) = some b.text
primary_text (list_item b ∷ body) = some b.text
primary_text (blockquote b ∷ body) = some b.text
primary_text (b ∷ body) = primary_text body

-- `replace(/\s+/g, ' ')`; `inside` is whether the character before was white space
unfoldable pub collapse : (inside : Bool) → Text → Text
unfolding is_space
collapse inside [] = []
collapse inside (c ∷ s) =
    let after_space = collapse true s in
    let after_other = c ∷ collapse false s in
    if is_space c then (if inside then after_space else 0x20 ∷ after_space) else after_other

-- `replace(/[.!?]$/, '')`
unfoldable pub strip_terminator : Text → Text
strip_terminator [] = []
strip_terminator (c ∷ []) = if c == b'.' || c == b'!' || c == b'?' then [] else c ∷ []
strip_terminator (c ∷ d ∷ s) = c ∷ strip_terminator (d ∷ s)

unfoldable pub derive_example_name : List Block → Text
unfolding primary_text collapse strip_terminator
derive_example_name body = elim (primary_text body) [
  | none ↦ []
  | some t ↦ strip_terminator (trim (collapse false t))
]
