-- ===== src/Text/Laws.antt =====
-- Laws of the string methods.
use varar.Base.{
  ℕ, zero, suc, ◌<◌, some, get_elem?, ◌≤◌, true, List, [], ◌∷◌, ◌≡◌, refl, ◌≢◌, ◌↔◌, arith, length,
}
use varar.Text.{Text, is_space, leading, trimmed_length, text_eq, split_cons, split_on, join_on}

pub text_eq_iff : (s t : Text) → (text_eq s t ≡ true) ↔ (s ≡ t)
unfolding text_eq
text_eq_iff [] [] = ground arith
text_eq_iff (a ∷ s) (b ∷ t) = ground (arith, text_eq_iff s t)
text_eq_iff _ _ = ground arith

pub leading-le-length : (s : Text) → leading s ≤ length s
unfolding leading
leading-le-length [] = omega arith
leading-le-length (c ∷ s) = ground (arith, leading-le-length s)

pub trimmed_length-le-length : (s : Text) → trimmed_length s ≤ length s
unfolding trimmed_length
trimmed_length-le-length [] = omega arith
trimmed_length-le-length (c ∷ s) = ground (arith, trimmed_length-le-length s)

join_on-split_cons :
    (c d : ℕ) (ts : List Text) → ts ≢ [] → join_on c (split_cons d ts) ≡ d ∷ join_on c ts
unfolding join_on split_cons
join_on-split_cons c d [] h = absurd (h refl)
join_on-split_cons c d (t ∷ []) h = refl
join_on-split_cons c d (t ∷ u ∷ ts) h = refl

pub split_on-ne-nil : (c : ℕ) (s : Text) → split_on c s ≢ []
unfolding split_on split_cons
split_on-ne-nil c [] = ground arith
split_on-ne-nil c (d ∷ s) = ground (arith, split_on-ne-nil c s)

join_on-nil_cons : (c : ℕ) (ts : List Text) → ts ≢ [] → join_on c ([] ∷ ts) ≡ c ∷ join_on c ts
unfolding join_on
join_on-nil_cons c [] h = absurd (h refl)
join_on-nil_cons c (t ∷ ts) h = refl

pub join_on-split_on : (c : ℕ) (s : Text) → join_on c (split_on c s) ≡ s
unfolding split_on
join_on-split_on c [] = unfold join_on in refl
join_on-split_on c (d ∷ s) = ground (
  arith,
  join_on-split_on c s,
  join_on-nil_cons c (split_on c s) (split_on-ne-nil c s),
  join_on-split_cons c d (split_on c s) (split_on-ne-nil c s),
)

pub leading-space :
    (s : Text) (k c : ℕ) → k < leading s → get_elem? s k ≡ some c → is_space c ≡ true
unfolding leading
leading-space [] k c h e = elim h [ ]
leading-space (d ∷ s) zero c h e = ground arith
leading-space (d ∷ s) (suc k) c h e = ground (arith, leading-space s k c)

pub trimmed_length-space :
    (s : Text) (k c : ℕ) → trimmed_length s ≤ k → get_elem? s k ≡ some c → is_space c ≡ true
unfolding trimmed_length
trimmed_length-space [] k c h e = ground arith
trimmed_length-space (d ∷ s) zero c h e = ground arith
trimmed_length-space (d ∷ s) (suc k) c h e = ground (arith, trimmed_length-space s k c)
