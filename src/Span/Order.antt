-- ===== src/Span/Order.antt =====
-- Line and column against the offset.
use varar.Base.{ℕ, zero, suc, ◌+◌, ◌-◌, ◌<◌, [], ◌∷◌, ◌≡◌, refl, ◌⊎◌, inr, arith}
use native.Mathlib.Nat.{zero-add, suc-add}
use varar.Text.{Text}
use varar.Span.{Position, advance, line_col_from, line_col}

-- The order of reading: an earlier line, or the same line and an earlier column.
abbrev pub Before : Position → Position → Type 0
Before p q = (p.line < q.line) ⊎ ((p.line ≡ q.line) × (p.col < q.col))

Before-trans : (p q r : Position) → Before p q → Before q r → Before p r
Before-trans p q r h k = ground arith

Before-advance : (c : ℕ) (p : Position) → Before p (advance c p)
unfolding advance
Before-advance c p = ground arith

Before-line_col_from :
    (source : Text) (n : ℕ) (p : Position) → Before p (line_col_from source (suc n) p)
unfolding line_col_from
Before-line_col_from [] zero p = inr (refl, omega arith)
Before-line_col_from [] (suc n) p =
    Before-trans p (record p { col = p.col + 1 }) _ (inr (refl, omega arith))
      (Before-line_col_from [] n (record p { col = p.col + 1 }))
Before-line_col_from (c ∷ source) zero p = Before-advance c p
Before-line_col_from (c ∷ source) (suc n) p =
    Before-trans p (advance c p) _ (Before-advance c p)
      (Before-line_col_from source n (advance c p))

line_col_from-Before :
    (source : Text) (a d : ℕ) (p : Position)
    → Before (line_col_from source a p) (line_col_from source (suc (a + d)) p)
unfolding line_col_from
line_col_from-Before source zero d p = rw zero-add (Before-line_col_from source d p)
line_col_from-Before [] (suc a) d p =
    rw suc-add (line_col_from-Before [] a d (record p { col = p.col + 1 }))
line_col_from-Before (c ∷ source) (suc a) d p =
    rw suc-add (line_col_from-Before source a d (advance c p))

-- A later offset has a later position, in every source, also behind its end.
pub line_col-Before :
    (source : Text) (a b : ℕ) → a < b → Before (line_col source a) (line_col source b)
unfolding line_col
line_col-Before source a b h =
    let e : b ≡ suc (a + (b - a - 1)) = omega arith in
    rw e (line_col_from-Before source a (b - a - 1) (record { line = 1; col = 1 }))
