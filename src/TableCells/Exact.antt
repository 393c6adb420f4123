-- ===== src/TableCells/Exact.antt =====
-- The places of a row's cells are the places of their texts.
use varar.Base.{
  ℕ, zero, suc, ◌+◌, ◌-◌, ◌≤◌, ◌<◌, List, [], ◌∷◌, ◌++◌, append_assoc, some, leb, length,
  length-append, length-take, take, drop, take-take, drop-take, drop-drop, ◌≡◌, refl, ap, sym, ◌∙◌,
  arith, All, Bool-cases, Option-cases, inl, inr,
}
use varar.Text.{
  last_index_of, Text, slice, trim, trim_start, leading, trimmed_length, split_on, join_on,
  index_of,
}
use varar.Text.Laws.{leading-le-length, trimmed_length-le-length, join_on-split_on}
use varar.Span.{Span, span_from_offsets}
use varar.TableCells.{pipe, cells_from, cells_between, parse_row_cells}

-- The text `w` stands in the source from the offset `at` on.
abbrev pub StandsAt : Text → ℕ → Text → Type 0
StandsAt source at w = take (length w) (drop at source) ≡ w

take-length : (w : Text) → take (length w) w ≡ w
take-length [] = refl
take-length (c ∷ w) = ap (λ s. c ∷ s) (take-length w)

take-append : (v w : Text) → take (length v) (v ++ w) ≡ v
take-append [] w = refl
take-append (c ∷ v) w = ap (λ s. c ∷ s) (take-append v w)

drop-append : (v w : Text) → drop (length v) (v ++ w) ≡ w
drop-append [] w = refl
drop-append (c ∷ v) w = drop-append v w

-- a part of a text that stands in the source
part :
    (source : Text) (at : ℕ) (w : Text) (a n : ℕ)
    → StandsAt source at w
    → a + n ≤ length w
    → take n (drop (at + a) source) ≡ take n (drop a w)
part source at w a n h k =
    ap (take n) (sym (drop-drop a at source))
    ∙ sym (take-take n (length w - a) (drop a (drop at source)) (omega arith))
    ∙ ap (take n) (sym (drop-take a (length w) (drop at source)))
    ∙ ap (λ s. take n (drop a s)) h

length-drop : (a : ℕ) (s : Text) → length (drop a s) ≡ length s - a
length-drop zero s = omega arith
length-drop (suc a) [] = omega arith
length-drop (suc a) (c ∷ s) = omega (arith, length-drop a s)

abbrev pub IsExact : Text → Text × Span → Type 0
IsExact source (cell, span) = slice source span.start_offset span.end_offset ≡ cell

trim-StandsAt :
    (source : Text) (at : ℕ) (seg : Text)
    → StandsAt source at seg
    → take (length (trim seg)) (drop (at + leading seg) source) ≡ trim seg
trim-StandsAt source at seg h =
    let rest = trim_start seg in
    let short = trimmed_length-le-length rest in
    let whole = length-drop (leading seg) seg in
    let e : length (trim seg) ≡ trimmed_length rest =
      omega (arith, length-take {0} (trimmed_length rest) rest, short) in
    ap (λ k. take k (drop (at + leading seg) source)) e
    ∙ part source at seg (leading seg) (trimmed_length rest) h
        (omega (arith, short, whole, leading-le-length seg))

drop_zero :
    (at : ℕ) (source : Text) (n : ℕ) → take n (drop (at + 0) source) ≡ take n (drop at source)
drop_zero at source n = let e : at + 0 ≡ at = omega arith in rw e

StandsAt-front :
    (source : Text) (at : ℕ) (v w : Text) → StandsAt source at (v ++ w) → StandsAt source at v
StandsAt-front source at v w h =
    sym (drop_zero at source (length v))
    ∙ part source at (v ++ w) 0 (length v) h (omega (arith, length-append {0} v w))
    ∙ take-append v w

StandsAt-behind :
    (source : Text) (at : ℕ) (v w : Text)
    → StandsAt source at (v ++ w)
    → StandsAt source (at + length v) w
StandsAt-behind source at v w h =
    part source at (v ++ w) (length v) (length w) h (omega (arith, length-append {0} v w))
    ∙ ap (take (length w)) (drop-append v w)
    ∙ take-length w

cell-IsExact :
    (source : Text) (at : ℕ) (seg : Text)
    → StandsAt source at seg
    → (let start = at + (length seg - length (trim_start seg)) in
        IsExact source (trim seg, span_from_offsets source start (start + length (trim seg))))
unfolding span_from_offsets
cell-IsExact source at seg h =
    let start = at + (length seg - length (trim_start seg)) in
    let same : start ≡ at + leading seg =
      omega (arith, length-drop (leading seg) seg, leading-le-length seg) in
    let size : start + length (trim seg) - start ≡ length (trim seg) = omega arith in
    rw size (rw same (trim-StandsAt source at seg h))

cells_from-IsExact :
    (source : Text) (at : ℕ) (segs : List Text)
    → StandsAt source at (join_on pipe segs)
    → All (IsExact source) (cells_from source at segs)
unfolding cells_from span_from_offsets
cells_from-IsExact source at [] h = tt
cells_from-IsExact source at (seg ∷ []) h = (cell-IsExact source at seg (unfold join_on in h), tt)
cells_from-IsExact source at (seg ∷ next ∷ segs) h =
    let front =
      StandsAt-front source at seg (pipe ∷ join_on pipe (next ∷ segs)) (unfold join_on in h) in
    let behind =
      StandsAt-behind source at (seg ++ pipe ∷ []) (join_on pipe (next ∷ segs))
        (rw append_assoc (unfold join_on in h)) in
    let shift : at + length (seg ++ pipe ∷ []) ≡ at + (length seg + 1) =
      omega (arith, length-append {0} seg (pipe ∷ [])) in
    (
      cell-IsExact source at seg front,
      cells_from-IsExact source (at + (length seg + 1)) (next ∷ segs) (rw shift at behind),
    )

last_index_of-lt-length : (c : ℕ) (s : Text) (i : ℕ) → last_index_of c s ≡ some i → i < length s
unfolding last_index_of
last_index_of-lt-length c [] i e = cc
last_index_of-lt-length c (d ∷ s) i e = elim (Option-cases (last_index_of c s)) [
  | inl n ↦ ground arith
  | inr (j, q) ↦ ground (arith, last_index_of-lt-length c s j q)
]

cells_between-IsExact :
    (text : Text) (line_start : ℕ) (source : Text) (first last : ℕ)
    → StandsAt source line_start text
    → last < length text
    → All (IsExact source) (cells_between text line_start source first last)
unfolding cells_between
cells_between-IsExact text line_start source first last h l = elim (Bool-cases (leb last first)) [
  | inl e ↦ rw e tt
  | inr e ↦ rw e (
      cells_from-IsExact source (line_start + (first + 1))
        (split_on pipe (slice text (first + 1) last)) (rw join_on-split_on (inner (ground arith))))
]
  where
    inner : first < last → StandsAt source (line_start + (first + 1)) (slice text (first + 1) last)
    inner f =
        let whole = length-drop (first + 1) text in
        let e : length (slice text (first + 1) last) ≡ last - (first + 1) =
          omega (arith, length-take {0} (last - (first + 1)) (drop (first + 1) text), whole) in
        ap (λ k. take k (drop (line_start + (first + 1)) source)) e
        ∙ part source line_start text (first + 1) (last - (first + 1)) h (omega arith)

-- For a row whose text stands at its start offset in the source, the span of every cell covers exactly
-- the cell's text in the source.
pub parse_row_cells-IsExact :
    (text : Text) (line_start : ℕ) (source : Text)
    → StandsAt source line_start text
    → All (IsExact source) (parse_row_cells text line_start source)
unfolding parse_row_cells
parse_row_cells-IsExact text line_start source h = elim (Option-cases (index_of pipe text)) [
  | inl n ↦ rw (parse_row_cells, n) tt
  | inr (first, e) ↦ elim (Option-cases (last_index_of pipe text)) [
    | inl n ↦ rw (parse_row_cells, e, n) tt
    | inr (last, q) ↦
        rw (parse_row_cells, e, q)
          (cells_between-IsExact text line_start source first last h
            (last_index_of-lt-length pipe text last q))
  ]
]
