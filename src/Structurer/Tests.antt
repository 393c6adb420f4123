-- ===== src/Structurer/Tests.antt =====
-- A run of structurer.ts, and its theorems at that document.
use varar.Base.{List, [], ◌∷◌, ◌≡◌, refl, true, false, map}
use varar.Text.{Text}
use varar.Text.{codes}
use varar.Span.{Span}
use varar.Ast.{Block, heading, paragraph, fence, Example}
use varar.Structurer.{structure}
use varar.Structurer.Grouping.{grouped, structure-grouped}
use varar.Structurer.Remainder.{orphaned, headings_of, structure-orphaned}

abbrev at : Span
at = record {
  start_offset = 0;
  end_offset = 0;
  start_line = 1;
  start_col = 1;
  end_line = 1;
  end_col = 1;
}

abbrev words : Block
words = paragraph (record { text = codes "p"; span = at; segment_map = [] })

abbrev code : Block
code = fence (record { span = at; info = []; body = []; body_span = at })

-- # A, ## B, a paragraph with a fence, # C, a fence, a paragraph, ---, a paragraph
abbrev blocks : List Block
blocks =
    heading (record { level = 1; text = codes "A"; span = at })
    ∷ heading (record { level = 2; text = codes "B"; span = at })
    ∷ words
    ∷ code
    ∷ heading (record { level = 1; text = codes "C"; span = at })
    ∷ code
    ∷ words
    ∷ words
    ∷ []

abbrev scopes : List Example → List (List Text)
scopes = map (λ (e : Example). e.scope_stack)

structure_runs :
    (scopes (structure [] [] blocks).examples
      ≡ (codes "A" ∷ codes "B" ∷ []) ∷ (codes "C" ∷ []) ∷ (codes "C" ∷ []) ∷ [])
    × ((structure [] [] blocks).orphan_attachments ≡ code ∷ [])
    × (map (λ (e : Example). e.preceded_by_delimiter) (structure [] [] blocks).examples
        ≡ true ∷ true ∷ false ∷ [])
unfolding structure
structure_runs = (refl, refl, refl)

structure-grouped_example : (structure [] [] blocks).examples ≡ grouped [] [] true blocks
structure-grouped_example = structure-grouped [] [] blocks

structure-orphaned_example :
    ((structure [] [] blocks).orphan_attachments ≡ orphaned false blocks)
    × ((structure [] [] blocks).headings ≡ headings_of blocks)
structure-orphaned_example = structure-orphaned [] [] blocks
