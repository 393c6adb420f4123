-- ===== src/Scanner/Lines.antt =====
-- The lines of a document: where they start and end, and what stands there.
use varar.Base.{
  ℕ, zero, suc, ◌+◌, ◌-◌, ◌≤◌, List, [], ◌∷◌, ◌++◌, map, some, ◌≡◌, refl, ap, sym, ◌∙◌, arith,
  length, length-append, append-nil, append_assoc, subst, get_elem?, take, drop,
}
use varar.Text.{Text, newline, split_on, join_on, slice}
use varar.Text.Laws.{join_on-split_on}
use varar.Span.{Position, advance, line_col, line_col_from}
use varar.Scanner.{RawLine, lines_from, split_lines}

-- The offset is in the first column.
abbrev pub StartsLine : Text → ℕ → Type 0
StartsLine source at = (line_col source at).col ≡ 1

-- Lines at or behind `low`, one behind the other, that end at or in front of `high`, each with its text.
abbrev pub AreLines : Text → (low high : ℕ) → List RawLine → Type 0
AreLines source low high [] = Unit
AreLines source low high (l ∷ lines) =
    (low ≤ l.start_offset)
    × (l.start_offset ≤ l.end_offset)
    × (l.end_offset ≤ high)
    × StartsLine source l.start_offset
    × (slice source l.start_offset l.end_offset ≡ l.text)
    × AreLines source (suc l.end_offset) high lines

-- behind a newline
line_col_from-newline :
    (source : Text) (n : ℕ) (p : Position)
    → get_elem? source n ≡ some newline
    → (line_col_from source (suc n) p).col ≡ 1
unfolding line_col_from advance
line_col_from-newline [] n p e = cc
line_col_from-newline (c ∷ source) zero p e = ground arith
line_col_from-newline (c ∷ source) (suc n) p e = line_col_from-newline source n (advance c p) e

take-prefix : (s t : Text) → take (length s) (s ++ t) ≡ s
take-prefix [] t = refl
take-prefix (c ∷ s) t = ap (λ r. c ∷ r) (take-prefix s t)

drop-prefix : (s t : Text) → drop (length s) (s ++ t) ≡ t
drop-prefix [] t = refl
drop-prefix (c ∷ s) t = drop-prefix s t

-- a text in the middle of the source
slice-part : (a t r : Text) → slice (a ++ (t ++ r)) (length a) (length a + length t) ≡ t
slice-part a t r =
    let e : length a + length t - length a ≡ length t = omega arith in
    rw (e, drop-prefix, take-prefix)

get_elem?-part : (a r : Text) (c : ℕ) → get_elem? (a ++ c ∷ r) (length a) ≡ some c
get_elem?-part [] r c = refl
get_elem?-part (d ∷ a) r c = get_elem?-part a r c

module _ (source : Text) where
  next-StartsLine :
      (a t r : Text)
      → source ≡ a ++ (t ++ newline ∷ r)
      → StartsLine source (suc (length a + length t))
  unfolding line_col
  next-StartsLine a t r e =
      line_col_from-newline source (length a + length t) (record { line = 1; col = 1 })
        (rw (e, sym (append_assoc a t (newline ∷ r)), sym (length-append a t))
          (get_elem?-part (a ++ t) r newline))

  lines_from-AreLines :
      (texts : List Text) (low : ℕ) (before : Text)
      → source ≡ before ++ join_on newline texts
      → low ≤ length before
      → StartsLine source (length before)
      → AreLines source low (length source) (lines_from (length before) texts)
  unfolding lines_from join_on
  lines_from-AreLines [] low before e h s = tt
  lines_from-AreLines (t ∷ []) low before e h s =
      let e' : source ≡ before ++ (t ++ []) = e ∙ ap (λ r. before ++ r) (sym (append-nil t)) in
      (
        h,
        omega arith,
        omega (arith, ap length e, length-append before t),
        s,
        rw e' (slice-part before t []),
        tt,
      )
  lines_from-AreLines (t ∷ u ∷ texts) low before e h s =
      let r : Text = join_on newline (u ∷ texts) in
      let front : Text = before ++ (t ++ newline ∷ []) in
      let n : length front ≡ suc (length before + length t) =
        omega (arith, length-append before (t ++ newline ∷ []), length-append t (newline ∷ [])) in
      let e' : source ≡ front ++ r =
        e
        ∙ ap (λ x. before ++ x) (sym (append_assoc t (newline ∷ []) r))
        ∙ sym (append_assoc before (t ++ newline ∷ []) r) in
      (
        h,
        omega arith,
        omega (
          arith,
          ap length e,
          length-append before (t ++ newline ∷ r),
          length-append t (newline ∷ r),
        ),
        s,
        rw e (slice-part before t (newline ∷ r)),
        subst
            (λ k.
              AreLines source (suc (length before + length t)) (length source)
                (lines_from k (u ∷ texts)))
            n
            (lines_from-AreLines (u ∷ texts) (suc (length before + length t)) front e'
              (omega (arith, n))
              (subst (StartsLine source) (sym n) (next-StartsLine before t r e))),
      )

-- The lines of a source stand one behind the other in it, each in the first column.
pub split_lines-AreLines : (source : Text) → AreLines source 0 (length source) (split_lines source)
unfolding split_lines line_col line_col_from
split_lines-AreLines source =
    lines_from-AreLines source (split_on newline source) 0 []
      (sym (join_on-split_on newline source)) (omega arith) refl

abbrev pub line_text : RawLine → Text
line_text l = l.text

map-lines_from : (start : ℕ) (texts : List Text) → map line_text (lines_from start texts) ≡ texts
unfolding lines_from
map-lines_from start [] = refl
map-lines_from start (t ∷ texts) = ap (λ ts. t ∷ ts) (map-lines_from (suc (start + length t)) texts)

-- The lines of a source, joined by newlines, are the source.
pub join_on-split_lines :
    (source : Text) → join_on newline (map line_text (split_lines source)) ≡ source
unfolding split_lines
join_on-split_lines source =
    ap (join_on newline) (map-lines_from 0 (split_on newline source))
    ∙ join_on-split_on newline source
