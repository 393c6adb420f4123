-- ===== src/Scanner/Reading.antt =====
-- The loop of `scan` over all lines of a source.
use varar.Base.{
  ℕ, zero, suc, ◌+◌, ◌≤◌, List, [], ◌∷◌, map, Option, none, some, ◌≡◌, refl, ap, ◌∙◌, arith, length,
  Bool-cases, inl, inr, ◌==◌,
}
use mathlib.Core.Option
use varar.Text.{Text, trim}
use varar.Span.{Span, span_from_offsets}
use varar.Ast.{Block, block_span}
use varar.Scanner.{RawLine, split_lines}
use varar.Scanner.Lines.{StartsLine, AreLines, split_lines-AreLines}
use varar.Scanner.Scan.{next_block, round, push, scan_from, scanned, scan}
use varar.Scanner.Order.{AreLines-lower, Follows, next_block-Follows}

-- Spans behind `low` and up to `high`, one behind the other, with the places that their offsets have
-- in the source; each starts in the first column.
abbrev pub AreInOrder : Text → (low high : ℕ) → List Span → Type 0
AreInOrder source low high [] = Unit
AreInOrder source low high (s ∷ spans) =
    (low ≤ s.start_offset)
    × (s.start_offset ≤ s.end_offset)
    × (s.end_offset ≤ high)
    × (s ≡ span_from_offsets source s.start_offset s.end_offset)
    × (s.start_col ≡ 1)
    × AreInOrder source (suc s.end_offset) high spans

module _ (source : Text) (high : ℕ) where
  -- What a round leaves is behind its block, and is not longer.
  abbrev pub Leaves : ℕ → List RawLine → Option Block × List RawLine → Type 0
  Leaves low lines (none, rest) = AreLines source low high rest × (length rest ≤ length lines)
  Leaves low lines (some b, rest) =
      (low ≤ (block_span b).start_offset)
      × ((block_span b).start_offset ≤ (block_span b).end_offset)
      × ((block_span b).end_offset ≤ high)
      × (block_span b
          ≡ span_from_offsets source (block_span b).start_offset (block_span b).end_offset)
      × ((block_span b).start_col ≡ 1)
      × AreLines source (suc (block_span b).end_offset) high rest
      × (length rest ≤ length lines)

  Leaves-Follows :
      (low : ℕ) (line : RawLine) (lines : List RawLine) (x : Block × List RawLine)
      → low ≤ line.start_offset
      → line.start_offset ≤ line.end_offset
      → StartsLine source line.start_offset
      → Follows source high line (length lines) x
      → Leaves low lines (some x.0, x.1)
  unfolding span_from_offsets
  Leaves-Follows low line lines (b, rest) h k s (end, e, (c, d, a, n)) =
      rw e ((h, omega arith, d, refl, s, a, n))

  pub round-Leaves :
      (low : ℕ) (line : RawLine) (lines : List RawLine)
      → AreLines source low high (line ∷ lines)
      → Leaves low lines (round source line lines)
  unfolding round
  round-Leaves low line lines a = elim (Bool-cases (length (trim line.text) == 0)) [
    | inl e ↦ rw e (
        (AreLines-lower source high (suc line.end_offset) low lines (omega arith) a.5, omega arith))
    | inr e ↦ rw e (
        Leaves-Follows low line lines (next_block source line lines) a.0 a.1 a.3
          (next_block-Follows source high line lines (a.2, a.5)))
  ]

  -- The loop has ended, with blocks in order.
  abbrev pub EndsInOrder : ℕ → Option (List Block) → Type 0
  EndsInOrder low none = ⊥
  EndsInOrder low (some blocks) = AreInOrder source low high (map block_span blocks)

  plain-EndsInOrder :
      (low : ℕ) (o : Option (List Block))
      → EndsInOrder low o
      → EndsInOrder low (Option.map (push source none) o)
  plain-EndsInOrder low none ends = ends
  plain-EndsInOrder low (some blocks) ends = ends

  block-EndsInOrder :
      (low : ℕ) (b : Block) (lines rest : List RawLine) (o : Option (List Block))
      → Leaves low lines (some b, rest)
      → EndsInOrder (suc (block_span b).end_offset) o
      → EndsInOrder low (Option.map (push source (some b)) o)
  block-EndsInOrder low b lines rest none l ends = ends
  block-EndsInOrder low b lines rest (some blocks) l ends = (l.0, l.1, l.2, l.3, l.4, ends)

  push-EndsInOrder :
      (fuel low : ℕ) (lines : List RawLine) (x : Option Block × List RawLine)
      → length lines ≤ fuel
      → ((low : ℕ) (rest : List RawLine)
          → length rest ≤ fuel
          → AreLines source low high rest
          → EndsInOrder low (scan_from source fuel rest))
      → Leaves low lines x
      → EndsInOrder low (Option.map (push source x.0) (scan_from source fuel x.1))
  push-EndsInOrder fuel low lines (none, rest) h again l =
      plain-EndsInOrder low _ (again low rest (omega (arith, l.1)) l.0)
  push-EndsInOrder fuel low lines (some b, rest) h again l =
      block-EndsInOrder low b lines rest _ l
        (again (suc (block_span b).end_offset) rest (omega (arith, l.6)) l.5)

  pub scan_from-EndsInOrder :
      (fuel low : ℕ) (lines : List RawLine)
      → length lines ≤ fuel
      → AreLines source low high lines
      → EndsInOrder low (scan_from source fuel lines)
  unfolding scan_from
  scan_from-EndsInOrder zero low [] h a = tt
  scan_from-EndsInOrder zero low (line ∷ lines) h a = elim h [ ]
  scan_from-EndsInOrder (suc fuel) low [] h a = tt
  scan_from-EndsInOrder (suc fuel) low (line ∷ lines) h a =
      push-EndsInOrder fuel low lines (round source line lines) (omega arith)
        (scan_from-EndsInOrder fuel) (round-Leaves low line lines a)

EndsInOrder-scanned :
    (source : Text) (high low : ℕ) (o : Option (List Block))
    → EndsInOrder source high low o
    → AreInOrder source low high (map block_span (scanned o))
EndsInOrder-scanned source high low none e = absurd e
EndsInOrder-scanned source high low (some blocks) e = e

EndsInOrder-some :
    (source : Text) (high low : ℕ) (o : Option (List Block))
    → EndsInOrder source high low o
    → o ≡ some (scanned o)
EndsInOrder-some source high low none e = absurd e
EndsInOrder-some source high low (some blocks) e = refl

push_longer :
    (source : Text) (x : Option Block) (o longer : Option (List Block)) (blocks : List Block)
    → ((found : List Block) → o ≡ some found → longer ≡ some found)
    → Option.map (push source x) o ≡ some blocks
    → Option.map (push source x) longer ≡ some blocks
push_longer source x none longer blocks h e = absurd (ground arith)
push_longer source x (some found) longer blocks h e =
    ap (Option.map (push source x)) (h found refl) ∙ e

-- A loop that has ended ends with the same blocks if it has more fuel.
scan_from_longer :
    (source : Text) (fuel : ℕ) (lines : List RawLine) (blocks : List Block)
    → scan_from source fuel lines ≡ some blocks
    → scan_from source (suc fuel) lines ≡ some blocks
unfolding scan_from
scan_from_longer source zero [] blocks e = e
scan_from_longer source zero (line ∷ lines) blocks e = absurd (ground arith)
scan_from_longer source (suc fuel) [] blocks e = e
scan_from_longer source (suc fuel) (line ∷ lines) blocks e =
    let rest = (round source line lines).1 in
    push_longer source (round source line lines).0 (scan_from source fuel rest)
      (scan_from source (suc fuel) rest) blocks (λ found. scan_from_longer source fuel rest found) e

loop_ends :
    (source : Text)
    → EndsInOrder source
        (length source)
        0
        (scan_from source (length (split_lines source)) (split_lines source))
loop_ends source =
    scan_from-EndsInOrder source (length source) (length (split_lines source)) 0
      (split_lines source) (omega arith) (split_lines-AreLines source)

-- The blocks of a source lie in it, one behind the other without overlap, and each starts in the first
-- column.
pub scan-AreInOrder :
    (source : Text) → AreInOrder source 0 (length source) (map block_span (scan source))
unfolding scan
scan-AreInOrder source = EndsInOrder-scanned source (length source) 0 _ (loop_ends source)

pub scan_ends :
    (source : Text)
    → scan_from source (length (split_lines source)) (split_lines source) ≡ some (scan source)
unfolding scan
scan_ends source = EndsInOrder-some source (length source) 0 _ (loop_ends source)

-- The loop of the scanner ends with no line left, after as many rounds as there are lines or fewer, and
-- its blocks are those of the source: with that fuel or more, it does not run out.
pub scan_total :
    (source : Text) (more : ℕ)
    → scan_from source (length (split_lines source) + more) (split_lines source)
      ≡ some (scan source)
scan_total source zero =
    let e : length (split_lines source) + 0 ≡ length (split_lines source) = omega arith in
    ap (λ n. scan_from source n (split_lines source)) e ∙ scan_ends source
scan_total source (suc more) =
    let e : length (split_lines source) + suc more ≡ suc (length (split_lines source) + more) =
      omega arith in
    ap (λ n. scan_from source n (split_lines source)) e
    ∙ scan_from_longer source (length (split_lines source) + more) (split_lines source)
        (scan source) (scan_total source more)
