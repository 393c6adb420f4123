-- ===== src/Span/Lines.antt =====
-- Line and column against the lines of the text that stands in front of the offset.
use varar.Base.{
  ℕ, zero, suc, ◌+◌, ◌≤◌, List, [], ◌∷◌, ◌≡◌, ◌≢◌, refl, inl, inr, arith, ◌==◌, length, take,
  Bool-cases,
}
use varar.Text.{Text, newline, split_on, split_cons}
use varar.Text.Laws.{split_on-ne-nil}
use varar.Span.{Position, line_col_from, line_col}

-- What a text that is split into `pieces` adds to a position.
after : Position → List Text → Position
after p [] = p
after p (t ∷ []) = record p { col = p.col + length t }
after p (t ∷ u ∷ ts) = after (record { line = p.line + 1; col = 1 }) (u ∷ ts)

after-nil_cons :
    (p : Position) (ts : List Text)
    → ts ≢ []
    → after p ([] ∷ ts) ≡ after (record { line = p.line + 1; col = 1 }) ts
unfolding after
after-nil_cons p [] h = absurd (h refl)
after-nil_cons p (t ∷ ts) h = refl

after-split_cons :
    (p : Position) (c : ℕ) (ts : List Text)
    → ts ≢ []
    → after p (split_cons c ts) ≡ after (record p { col = p.col + 1 }) ts
unfolding after split_cons
after-split_cons p c [] h = absurd (h refl)
after-split_cons p c (t ∷ []) h = ground arith
after-split_cons p c (t ∷ u ∷ ts) h = refl

line_col_from-after :
    (source : Text) (n : ℕ) (p : Position)
    → n ≤ length source
    → line_col_from source n p ≡ after p (split_on newline (take n source))
unfolding line_col_from after split_on
line_col_from-after [] zero p h = ground arith
line_col_from-after (c ∷ source) zero p h = ground arith
line_col_from-after [] (suc n) p h = elim h [ ]
line_col_from-after (c ∷ source) (suc n) p h = elim (Bool-cases (c == newline)) [
  | inl e ↦ rw e (
      rw (after-nil_cons p _ (split_on-ne-nil newline (take n source)))
        (line_col_from-after source n _ (omega arith)))
  | inr e ↦ rw e (
      rw (after-split_cons p c _ (split_on-ne-nil newline (take n source)))
        (line_col_from-after source n _ (omega arith)))
]

abbrev pub last_length : List Text → ℕ
last_length [] = 0
last_length (t ∷ []) = length t
last_length (t ∷ u ∷ ts) = last_length (u ∷ ts)

after-line :
    (l : ℕ) (ts : List Text)
    → ts ≢ []
    → (after (record { line = l; col = 1 }) ts).line + 1 ≡ l + length ts
unfolding after
after-line l [] h = absurd (h refl)
after-line l (t ∷ []) h = omega arith
after-line l (t ∷ u ∷ ts) h = omega (arith, after-line (l + 1) (u ∷ ts) (ground arith))

after-col :
    (l : ℕ) (ts : List Text)
    → ts ≢ []
    → (after (record { line = l; col = 1 }) ts).col ≡ 1 + last_length ts
unfolding after
after-col l [] h = absurd (h refl)
after-col l (t ∷ []) h = omega arith
after-col l (t ∷ u ∷ ts) h = after-col (l + 1) (u ∷ ts) (ground arith)

-- For an offset in the source, the line is the number of lines of the text in front of it, and the
-- column is one more than the length of the last of those lines.
pub line_col-split_on :
    (source : Text) (offset : ℕ)
    → offset ≤ length source
    → ((line_col source offset).line ≡ length (split_on newline (take offset source)))
      × ((line_col source offset).col ≡ 1 + last_length (split_on newline (take offset source)))
unfolding line_col
line_col-split_on source offset h =
    let pieces = split_on newline (take offset source) in
    let ne = split_on-ne-nil newline (take offset source) in
    let e = line_col_from-after source offset (record { line = 1; col = 1 }) h in
    (rw e (omega (arith, after-line 1 pieces ne)), rw e (after-col 1 pieces ne))
