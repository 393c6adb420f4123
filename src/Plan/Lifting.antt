-- ===== src/Plan/Lifting.antt =====
-- Offsets in a block's text as offsets in the source.
use varar.Base.{ℕ, ◌+◌, ◌-◌, List, [], ◌∷◌, Option, none, some, leb, if◌then◌else◌}
use varar.Text.{Text}
use varar.Span.{Span, span_from_offsets}
use varar.Ast.{SegmentOffset, Block, paragraph, list_item, blockquote, block_span}

-- the loop: the last entry at or in front of the offset
unfoldable pub best_segment : ℕ → SegmentOffset → List SegmentOffset → SegmentOffset
best_segment text_offset best [] = best
best_segment text_offset best (entry ∷ segments) =
    best_segment text_offset (if leb entry.text_offset text_offset then entry else best) segments

-- `liftSegmentOffset`; `none` is the error `empty segmentMap`
unfoldable pub lift_segment_offset : List SegmentOffset → ℕ → Option ℕ
unfolding best_segment
lift_segment_offset [] text_offset = none
lift_segment_offset (first ∷ segments) text_offset =
    let best = best_segment text_offset first (first ∷ segments) in
    some (best.source_offset + text_offset - best.text_offset)

unfoldable pub lift_from_segment_map : Text → List SegmentOffset → ℕ → ℕ → Option Span
unfolding lift_segment_offset span_from_offsets
lift_from_segment_map source segment_map block_start block_end =
    elim (lift_segment_offset segment_map block_start) [
      | none ↦ none
      | some start ↦ elim (lift_segment_offset segment_map block_end) [
        | none ↦ none
        | some end ↦ some (span_from_offsets source start end)
      ]
    ]

-- the text and segment map of a block that has them
abbrev pub block_text : Block → Option (Text × List SegmentOffset)
block_text (paragraph b) = some (b.text, b.segment_map)
block_text (list_item b) = some (b.text, b.segment_map)
block_text (blockquote b) = some (b.text, b.segment_map)
block_text (_) = none

unfoldable pub lift_span : Text → Block → ℕ → ℕ → Option Span
unfolding lift_from_segment_map
lift_span source block block_start block_end = elim (block_text block) [
  | none ↦ some (block_span block)
  | some (text, segment_map) ↦ lift_from_segment_map source segment_map block_start block_end
]
