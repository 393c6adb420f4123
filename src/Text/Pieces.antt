-- ===== src/Text/Pieces.antt =====
-- `split` and `join` undo each other on pieces that do not contain the separator.
use varar.Base.{
  ℕ, false, List, [], ◌∷◌, ◌++◌, ◌≡◌, refl, ap, ◌∙◌, arith, ◌==◌, All, Bool-cases, inl, inr,
}
use varar.Text.{Text, split_cons, split_on, join_on}

-- The character does not stand in the text.
abbrev pub Lacks : ℕ → Text → Type 0
Lacks c s = All (λ d. (d == c) ≡ false) s

split_cons-Lacks :
    (c d : ℕ) (ts : List Text)
    → (d == c) ≡ false
    → All (Lacks c) ts
    → All (Lacks c) (split_cons d ts)
unfolding split_cons
split_cons-Lacks c d [] e a = ((e, tt), tt)
split_cons-Lacks c d (t ∷ ts) e (p, a) = ((e, p), a)

pub split_on-Lacks : (c : ℕ) (s : Text) → All (Lacks c) (split_on c s)
unfolding split_on
split_on-Lacks c [] = (tt, tt)
split_on-Lacks c (d ∷ s) = elim (Bool-cases (d == c)) [
  | inl e ↦ rw e (tt, split_on-Lacks c s)
  | inr e ↦ rw e (split_cons-Lacks c d (split_on c s) e (split_on-Lacks c s))
]

split_on-piece : (c : ℕ) (t : Text) → Lacks c t → split_on c t ≡ t ∷ []
unfolding split_on split_cons
split_on-piece c [] l = refl
split_on-piece c (d ∷ t) (e, l) = rw (e, split_on-piece c t l) refl

split_on-piece_append :
    (c : ℕ) (t s : Text) → Lacks c t → split_on c (t ++ (c ∷ s)) ≡ t ∷ split_on c s
unfolding split_on split_cons
split_on-piece_append c [] s l = ground arith
split_on-piece_append c (d ∷ t) s (e, l) = rw (e, split_on-piece_append c t s l) refl

pub split_on-join_on :
    (c : ℕ) (t : Text) (ts : List Text)
    → All (Lacks c) (t ∷ ts)
    → split_on c (join_on c (t ∷ ts)) ≡ t ∷ ts
unfolding join_on
split_on-join_on c t [] (p, a) = split_on-piece c t p
split_on-join_on c t (u ∷ ts) (p, a) =
    split_on-piece_append c t (join_on c (u ∷ ts)) p ∙ ap (λ l. t ∷ l) (split_on-join_on c u ts a)
