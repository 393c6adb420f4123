-- ===== src/Structurer.antt =====
-- typescript/packages/core/src/structurer.ts: from the blocks of a document to its candidate
-- examples, its orphan tables and fences, and its outline.
pub mod Scopes
pub mod Grouping
pub mod Remainder
mod Tests
use varar.Base.{
  ℕ, zero, suc, ◌+◌, ◌-◌, Bool, true, false, ◌&&◌, List, [], ◌∷◌, ◌++◌, map, Option, none, some,
  leb, ltb, if◌then◌else◌, length, get_elem?, set,
}
use mathlib.Core.List.{reverse}
use varar.Text.{Text}
use varar.Span.{span_from_offsets}
use varar.Ast.{
  Heading, Block, heading, paragraph, list_item, blockquote, table, fence, thematic_break, Example,
  Doc, block_span,
}

-- an entry of `scopeStack`
pub record Scope : Type 0 where
  pub level : ℕ
  pub text : Text

-- The variables of the loop. `scopes` has the innermost entry, the end of the source's array, at its
-- head; `last_example_idx` is `none` for -1.
pub record Progress : Type 0 where
  pub examples : List Example
  pub orphans : List Block
  pub headings : List Heading
  pub scopes : List Scope
  pub last_example_idx : Option ℕ
  pub attachment_open : Bool
  pub delimiter_pending : Bool

-- the `while` that pops the entries that are as deep or deeper
unfoldable pub pop_scopes : ℕ → List Scope → List Scope
pop_scopes level [] = []
pop_scopes level (s ∷ scopes) = if leb level s.level then pop_scopes level scopes else s ∷ scopes

-- `case 'heading'`
unfoldable pub on_heading : Heading → Progress → Progress
unfolding pop_scopes
on_heading h p = record p {
  headings = p.headings ++ h ∷ [];
  scopes = record { level = h.level; text = h.text } ∷ pop_scopes h.level p.scopes;
  attachment_open = false;
  delimiter_pending = true;
}

abbrev pub scope_text : Scope → Text
scope_text s = s.text

-- `case 'paragraph'`, `'list_item'` and `'blockquote'`
unfoldable pub on_text : Block → Progress → Progress
on_text b p = record p {
  examples =
      p.examples
      ++ record {
        scope_stack = map scope_text (reverse p.scopes);
        span = block_span b;
        body = b ∷ [];
        preceded_by_delimiter = p.delimiter_pending;
      }
        ∷ [];
  last_example_idx = some (length p.examples);
  attachment_open = true;
  delimiter_pending = false;
}

-- the update of `prev`
abbrev pub attach : Text → Block → Example → Example
attach source b prev = record prev {
  span = span_from_offsets source prev.span.start_offset (block_span b).end_offset;
  body = prev.body ++ b ∷ [];
}

-- where the attachment goes: `prev`, if there is one to take it
attach_at : Text → Block → Progress → Option ℕ → Progress
attach_at source b p none = record p { orphans = p.orphans ++ b ∷ [] }
attach_at source b p (some i) = elim (get_elem? p.examples i) [
  | none ↦ record p { orphans = p.orphans ++ b ∷ [] }
  | some prev ↦ record p { examples = set p.examples i (attach source b prev) }
]

-- `case 'table'` and `'fence'`
unfoldable pub on_attachment : Text → Block → Progress → Progress
unfolding attach_at
on_attachment source b p =
    attach_at source b p (if p.attachment_open then p.last_example_idx else none)

-- one round of the loop
unfoldable pub on_block : Text → Block → Progress → Progress
unfolding on_heading on_text on_attachment
on_block source (heading h) p = on_heading h p
on_block source (paragraph b) p = on_text (paragraph b) p
on_block source (list_item b) p = on_text (list_item b) p
on_block source (blockquote b) p = on_text (blockquote b) p
on_block source (table b) p = on_attachment source (table b) p
on_block source (fence b) p = on_attachment source (fence b) p
on_block source (thematic_break b) p = record p {
  attachment_open = false;
  delimiter_pending = true;
}

unfoldable pub structure_from : Text → List Block → Progress → Progress
unfolding on_block
structure_from source [] p = p
structure_from source (b ∷ blocks) p = structure_from source blocks (on_block source b p)

abbrev pub start : Progress
start = record {
  examples = [];
  orphans = [];
  headings = [];
  scopes = [];
  last_example_idx = none;
  attachment_open = false;
  delimiter_pending = true;
}

unfoldable pub structure : Text → Text → List Block → Doc
unfolding structure_from
structure path source blocks =
    let done = structure_from source blocks start in
    record {
      path = path;
      source = source;
      examples = done.examples;
      orphan_attachments = done.orphans;
      headings = done.headings;
    }
