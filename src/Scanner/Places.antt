-- ===== src/Scanner/Places.antt =====
-- The candidates of a scanned document start in different lines, so its baseline shows no drift.
use varar.Base.{
  ℕ, suc, ◌≤◌, ◌<◌, Bool, true, false, List, [], ◌∷◌, map, some, ◌≡◌, ◌≢◌, refl, ap, sym, subst,
  ◌∙◌, arith, length, inl, inr, All,
}
use varar.Text.{Text}
use varar.Span.{span_from_offsets, line_col}
use varar.Span.Order.{line_col-Before}
use varar.Ast.{
  Heading, Block, heading, paragraph, list_item, blockquote, table, fence, thematic_break, Example,
  block_span,
}
use varar.Structurer.{attach}
use varar.Structurer.Grouping.{candidate, run, attach_all, grouped, structure-grouped}
use varar.Plan.{ExecutionPlan}
use varar.Drift.{derive_oath_baseline, detect_drift}
use varar.Drift.Unchanged.{HaveDistinctLines, detect_drift_unchanged}
use varar.Scanner.Lines.{StartsLine}
use varar.Scanner.Reading.{AreInOrder, scan-AreInOrder}
use varar.Scanner.Scan.{scan, parse}

module _ (source : Text) where
  -- The example starts at the offset, in the line of that offset.
  abbrev StartsAt : ℕ → Example → Type 0
  StartsAt at e = (e.span.start_offset ≡ at) × (e.span.start_line ≡ (line_col source at).line)

  attach_all-StartsAt :
      (at : ℕ) (blocks : List Block) (e : Example)
      → StartsAt at e
      → StartsAt at (attach_all source blocks e)
  unfolding attach_all span_from_offsets
  attach_all-StartsAt at [] e h = h
  attach_all-StartsAt at (b ∷ blocks) e (h, k) =
      attach_all-StartsAt at blocks (attach source b e) (h, ap (λ n. (line_col source n).line) h)

  -- Examples that start at or behind `low`, one behind the other, each in the first column.
  abbrev StartInOrder : ℕ → List Example → Type 0
  StartInOrder low [] = Unit
  StartInOrder low (e ∷ examples) =
      (at : ℕ) × (low ≤ at) × StartsLine source at × StartsAt at e × StartInOrder (suc at) examples

  StartInOrder-lower :
      (low low' : ℕ) (examples : List Example)
      → low' ≤ low
      → StartInOrder low examples
      → StartInOrder low' examples
  StartInOrder-lower low low' [] h s = tt
  StartInOrder-lower low low' (e ∷ examples) h (at, l, c, p, o) = (at, omega arith, c, p, o)

  -- the candidate of a block, in front of others
  candidate-StartInOrder :
      (low : ℕ) (past : List Heading) (d : Bool) (b : Block) (blocks : List Block)
      (examples : List Example)
      → low ≤ (block_span b).start_offset
      → (block_span b).start_offset ≤ (block_span b).end_offset
      → block_span b
        ≡ span_from_offsets source (block_span b).start_offset (block_span b).end_offset
      → (block_span b).start_col ≡ 1
      → StartInOrder (suc (block_span b).end_offset) examples
      → StartInOrder low (attach_all source blocks (candidate past d b) ∷ examples)
  unfolding span_from_offsets
  candidate-StartInOrder low past d b blocks examples h k e c s = (
    (block_span b).start_offset,
    h,
    sym (ap (λ t. t.start_col) e) ∙ c,
    attach_all-StartsAt (block_span b).start_offset blocks (candidate past d b)
        (refl, ap (λ t. t.start_line) e),
    StartInOrder-lower (suc (block_span b).end_offset) (suc (block_span b).start_offset) examples
        (omega arith) s,
  )

  grouped-StartInOrder :
      (low high : ℕ) (past : List Heading) (d : Bool) (blocks : List Block)
      → AreInOrder source low high (map block_span blocks)
      → StartInOrder low (grouped source past d blocks)
  unfolding grouped
  grouped-StartInOrder low high past d [] h = tt
  grouped-StartInOrder low high past d (heading b ∷ blocks) h =
      StartInOrder-lower (suc b.span.end_offset) low _ (omega (arith, h.0, h.1))
        (grouped-StartInOrder (suc b.span.end_offset) high (b ∷ past) true blocks h.5)
  grouped-StartInOrder low high past d (thematic_break b ∷ blocks) h =
      StartInOrder-lower (suc b.span.end_offset) low _ (omega (arith, h.0, h.1))
        (grouped-StartInOrder (suc b.span.end_offset) high past true blocks h.5)
  grouped-StartInOrder low high past d (table b ∷ blocks) h =
      StartInOrder-lower (suc b.span.end_offset) low _ (omega (arith, h.0, h.1))
        (grouped-StartInOrder (suc b.span.end_offset) high past d blocks h.5)
  grouped-StartInOrder low high past d (fence b ∷ blocks) h =
      StartInOrder-lower (suc b.span.end_offset) low _ (omega (arith, h.0, h.1))
        (grouped-StartInOrder (suc b.span.end_offset) high past d blocks h.5)
  grouped-StartInOrder low high past d (paragraph b ∷ blocks) h =
      candidate-StartInOrder low past d (paragraph b) (run blocks) _ h.0 h.1 h.3 h.4
        (grouped-StartInOrder (suc b.span.end_offset) high past false blocks h.5)
  grouped-StartInOrder low high past d (list_item b ∷ blocks) h =
      candidate-StartInOrder low past d (list_item b) (run blocks) _ h.0 h.1 h.3 h.4
        (grouped-StartInOrder (suc b.span.end_offset) high past false blocks h.5)
  grouped-StartInOrder low high past d (blockquote b ∷ blocks) h =
      candidate-StartInOrder low past d (blockquote b) (run blocks) _ h.0 h.1 h.3 h.4
        (grouped-StartInOrder (suc b.span.end_offset) high past false blocks h.5)

  -- Two offsets in the first column are in different lines.
  starts_apart :
      (a b : ℕ)
      → a < b
      → StartsLine source a
      → StartsLine source b
      → (line_col source b).line ≢ (line_col source a).line
  starts_apart a b h s t e = elim (line_col-Before source a b h) [
    | inl l ↦ omega arith
    | inr (q, c) ↦ omega arith
  ]

  behind-apart :
      (a low : ℕ) (e : Example) (examples : List Example)
      → a < low
      → StartsLine source a
      → StartsAt a e
      → StartInOrder low examples
      → All (λ d. d.span.start_line ≢ e.span.start_line) examples
  behind-apart a low e [] h s k o = tt
  behind-apart a low e (d ∷ examples) h s k (at, l, c, p, o) = (
    (λ q. starts_apart a at (omega arith) s c (sym p.1 ∙ q ∙ k.1)),
    behind-apart a (suc at) e examples (omega arith) s k o,
  )

  StartInOrder-HaveDistinctLines :
      (low : ℕ) (examples : List Example) → StartInOrder low examples → HaveDistinctLines examples
  StartInOrder-HaveDistinctLines low [] o = tt
  StartInOrder-HaveDistinctLines low (e ∷ examples) (at, l, c, p, o) = (
    behind-apart at (suc at) e examples (omega arith) c p o,
    StartInOrder-HaveDistinctLines (suc at) examples o,
  )

-- The candidate examples of a parsed document start in different lines.
pub parse-HaveDistinctLines : (path source : Text) → HaveDistinctLines (parse path source).examples
unfolding parse
parse-HaveDistinctLines path source = StartInOrder-HaveDistinctLines source 0 _ (
    subst (StartInOrder source 0) (sym (structure-grouped path source (scan source))) (
      grouped-StartInOrder source 0 (length source) [] true (scan source) (scan-AreInOrder source)))

-- Whatever the source and the words of a text are: a baseline that is recorded for a parsed document
-- and a plan shows no drift in them.
pub detect_drift-parse :
    (words : Text → List Text) (path source : Text) (plan : ExecutionPlan)
    → detect_drift words
        (some (derive_oath_baseline source (parse path source) plan))
        (parse path source)
        plan
      ≡ []
detect_drift-parse words path source plan =
    detect_drift_unchanged words source (parse path source) plan
      (parse-HaveDistinctLines path source)
