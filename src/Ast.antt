-- ===== src/Ast.antt =====
-- typescript/packages/core/src/ast.ts: the blocks of a document.
use varar.Base.{ℕ, Bool, List}
use varar.Text.{Text}
use varar.Span.{Span}

pub record Heading : Type 0 where
  pub level : ℕ
  pub text : Text
  pub span : Span

pub record SegmentOffset : Type 0 where
  pub text_offset : ℕ
  pub source_offset : ℕ

pub record Paragraph : Type 0 where
  pub text : Text
  pub span : Span
  pub segment_map : List SegmentOffset

pub record ListItem : Type 0 where
  pub text : Text
  pub span : Span
  pub segment_map : List SegmentOffset
  pub ordered : Bool
  pub marker_span : Span

pub record Blockquote : Type 0 where
  pub text : Text
  pub span : Span
  pub segment_map : List SegmentOffset

pub record Row : Type 0 where
  pub cells : List Text
  pub cell_spans : List Span
  pub span : Span

pub record Table : Type 0 where
  pub span : Span
  pub header : Row
  pub rows : List Row

pub record Fence : Type 0 where
  pub span : Span
  pub info : Text
  pub body : Text
  pub body_span : Span

pub record ThematicBreak : Type 0 where
  pub span : Span

-- the union of the seven kinds; the constructor is the `kind` field
pub data Block : Type 0 where
  heading : Heading → Block
  paragraph : Paragraph → Block
  list_item : ListItem → Block
  blockquote : Blockquote → Block
  table : Table → Block
  fence : Fence → Block
  thematic_break : ThematicBreak → Block

pub record Example : Type 0 where
  pub scope_stack : List Text
  pub span : Span
  pub body : List Block
  pub preceded_by_delimiter : Bool

-- `orphanAttachments` holds tables and fences only.
pub record Doc : Type 0 where
  pub path : Text
  pub source : Text
  pub examples : List Example
  pub orphan_attachments : List Block
  pub headings : List Heading

-- `block.span`, which every kind has
abbrev pub block_span : Block → Span
block_span (heading b) = b.span
block_span (paragraph b) = b.span
block_span (list_item b) = b.span
block_span (blockquote b) = b.span
block_span (table b) = b.span
block_span (fence b) = b.span
block_span (thematic_break b) = b.span
