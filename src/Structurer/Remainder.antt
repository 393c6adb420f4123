-- ===== src/Structurer/Remainder.antt =====
-- What `structure` leaves beside the examples: the orphan tables and fences, and the outline.
use varar.Base.{
  Bool, true, false, List, [], ◌∷◌, ◌++◌, ◌≡◌, refl, ap, sym, ◌∙◌, arith, if◌then◌else◌, append-nil,
  append_assoc,
}
use varar.Text.{Text}
use varar.Ast.{
  Heading, Block, heading, paragraph, list_item, blockquote, table, fence, thematic_break, Example,
}
use varar.Structurer.{
  Progress, on_heading, on_text, attach, on_attachment, structure_from, start, structure,
}
use varar.Structurer.Grouping.{OpenAt, on_attachment_open, on_attachment_closed}

-- The tables and fences that no text block takes.
unfoldable pub orphaned : Bool → List Block → List Block
orphaned taken [] = []
orphaned taken (heading h ∷ blocks) = orphaned false blocks
orphaned taken (thematic_break b ∷ blocks) = orphaned false blocks
orphaned taken (table t ∷ blocks) =
    let rest = orphaned taken blocks in if taken then rest else table t ∷ rest
orphaned taken (fence f ∷ blocks) =
    let rest = orphaned taken blocks in if taken then rest else fence f ∷ rest
orphaned taken (b ∷ blocks) = orphaned true blocks

unfoldable pub headings_of : List Block → List Heading
headings_of [] = []
headings_of (heading h ∷ blocks) = h ∷ headings_of blocks
headings_of (b ∷ blocks) = headings_of blocks

on_attachment-headings :
    (source : Text) (b : Block) (p : Progress) → (on_attachment source b p).headings ≡ p.headings
unfolding on_attachment
on_attachment-headings source b p = ground arith

OpenAt-on_text : (b : Block) (p : Progress) → (e : Example) × OpenAt p.examples e (on_text b p)
unfolding on_text
OpenAt-on_text b p = (_, (refl, refl, refl))

module _ (source : Text) where
  structure_from-headings_of :
      (blocks : List Block) (p : Progress)
      → (structure_from source blocks p).headings ≡ p.headings ++ headings_of blocks
  unfolding structure_from on_heading on_text headings_of
  structure_from-headings_of [] p = sym (append-nil _)
  structure_from-headings_of (heading h ∷ blocks) p =
      structure_from-headings_of blocks (on_heading h p) ∙ append_assoc p.headings (h ∷ []) _
  structure_from-headings_of (thematic_break b ∷ blocks) p = structure_from-headings_of blocks _
  structure_from-headings_of (paragraph b ∷ blocks) p =
      structure_from-headings_of blocks (on_text (paragraph b) p)
  structure_from-headings_of (list_item b ∷ blocks) p =
      structure_from-headings_of blocks (on_text (list_item b) p)
  structure_from-headings_of (blockquote b ∷ blocks) p =
      structure_from-headings_of blocks (on_text (blockquote b) p)
  structure_from-headings_of (table t ∷ blocks) p =
      structure_from-headings_of blocks (on_attachment source (table t) p)
      ∙ ap (λ hs. hs ++ headings_of blocks) (on_attachment-headings source (table t) p)
  structure_from-headings_of (fence t ∷ blocks) p =
      structure_from-headings_of blocks (on_attachment source (fence t) p)
      ∙ ap (λ hs. hs ++ headings_of blocks) (on_attachment-headings source (fence t) p)

  then_orphans :
      (blocks : List Block) {p q : Progress}
      → p ≡ q
      → (structure_from source blocks p).orphans ≡ (structure_from source blocks q).orphans
  then_orphans blocks e = ap (λ r. (structure_from source blocks r).orphans) e

  mutual
    unfolding structure_from on_heading on_text orphaned

    structure_from-free :
        (blocks : List Block) (p : Progress)
        → p.attachment_open ≡ false
        → (structure_from source blocks p).orphans ≡ p.orphans ++ orphaned false blocks
    structure_from-free [] p o = sym (append-nil _)
    structure_from-free (heading h ∷ blocks) p o = structure_from-free blocks (on_heading h p) refl
    structure_from-free (thematic_break b ∷ blocks) p o = structure_from-free blocks _ refl
    structure_from-free (table t ∷ blocks) p o =
        then_orphans blocks (on_attachment_closed source (table t) p o)
        ∙ structure_from-free blocks _ o
        ∙ append_assoc p.orphans (table t ∷ []) _
    structure_from-free (fence t ∷ blocks) p o =
        then_orphans blocks (on_attachment_closed source (fence t) p o)
        ∙ structure_from-free blocks _ o
        ∙ append_assoc p.orphans (fence t ∷ []) _
    structure_from-free (paragraph b ∷ blocks) p o =
        let (e, at) = OpenAt-on_text (paragraph b) p in
        structure_from-taken blocks p.examples e (on_text (paragraph b) p) at
    structure_from-free (list_item b ∷ blocks) p o =
        let (e, at) = OpenAt-on_text (list_item b) p in
        structure_from-taken blocks p.examples e (on_text (list_item b) p) at
    structure_from-free (blockquote b ∷ blocks) p o =
        let (e, at) = OpenAt-on_text (blockquote b) p in
        structure_from-taken blocks p.examples e (on_text (blockquote b) p) at

    structure_from-taken :
        (blocks : List Block) (before : List Example) (e : Example) (p : Progress)
        → OpenAt before e p
        → (structure_from source blocks p).orphans ≡ p.orphans ++ orphaned true blocks
    structure_from-taken [] before e p o = sym (append-nil _)
    structure_from-taken (heading h ∷ blocks) before e p o =
        structure_from-free blocks (on_heading h p) refl
    structure_from-taken (thematic_break b ∷ blocks) before e p o =
        structure_from-free blocks _ refl
    structure_from-taken (table t ∷ blocks) before e p o =
        then_orphans blocks (on_attachment_open source (table t) p before e o)
        ∙ structure_from-taken blocks before (attach source (table t) e) _ (refl, o.1, o.2)
    structure_from-taken (fence t ∷ blocks) before e p o =
        then_orphans blocks (on_attachment_open source (fence t) p before e o)
        ∙ structure_from-taken blocks before (attach source (fence t) e) _ (refl, o.1, o.2)
    structure_from-taken (paragraph b ∷ blocks) before e p o =
        let (e', at) = OpenAt-on_text (paragraph b) p in
        structure_from-taken blocks p.examples e' (on_text (paragraph b) p) at
    structure_from-taken (list_item b ∷ blocks) before e p o =
        let (e', at) = OpenAt-on_text (list_item b) p in
        structure_from-taken blocks p.examples e' (on_text (list_item b) p) at
    structure_from-taken (blockquote b ∷ blocks) before e p o =
        let (e', at) = OpenAt-on_text (blockquote b) p in
        structure_from-taken blocks p.examples e' (on_text (blockquote b) p) at

-- The orphans are, in order, the tables and fences that stand behind no text block's run, and the
-- headings are all headings of the document, in order.
pub structure-orphaned :
    (path source : Text) (blocks : List Block)
    → ((structure path source blocks).orphan_attachments ≡ orphaned false blocks)
      × ((structure path source blocks).headings ≡ headings_of blocks)
unfolding structure
structure-orphaned path source blocks =
    (structure_from-free source blocks start refl, structure_from-headings_of source blocks start)
