-- ===== src/Text/Sets.antt =====
-- Sets of texts as lists, and how many elements of one lie in another.
use varar.Base.{
  ℕ, suc, ◌+◌, ◌≤◌, Bool, true, false, ◌||◌, List, [], ◌∷◌, ◌++◌, if◌then◌else◌, length, ◌≡◌, refl,
  ◌∙◌, arith, All,
}
use varar.Text.{Text, text_eq}
use varar.Text.Laws.{text_eq_iff}

unfoldable pub has : Text → List Text → Bool
unfolding text_eq
has t [] = false
has t (s ∷ set) = text_eq s t || has t set

unfoldable pub count_in : List Text → List Text → ℕ
unfolding has
count_in [] b = 0
count_in (t ∷ a) b = let rest = count_in a b in if has t b then suc rest else rest

-- No word stands twice in the list.
abbrev pub IsTokenSet : List Text → Type 0
IsTokenSet [] = Unit
IsTokenSet (t ∷ set) = (has t set ≡ false) × IsTokenSet set

-- One more word in the second set is found at most once in the first.
count_in-cons :
    (a b : List Text) (s : Text)
    → IsTokenSet a
    → count_in a (s ∷ b) ≤ (if has s a then 1 else 0) + count_in a b
unfolding count_in has
count_in-cons [] b s d = omega arith
count_in-cons (t ∷ a) b s (n, d) =
    ground (arith, text_eq_iff s t, text_eq_iff t s, count_in-cons a b s d)

count_in-nil : (a : List Text) → count_in a [] ≡ 0
unfolding count_in has
count_in-nil [] = refl
count_in-nil (t ∷ a) = count_in-nil a

pub count_in-le : (a b : List Text) → IsTokenSet a → count_in a b ≤ length b
count_in-le a [] d = omega (arith, count_in-nil a)
count_in-le a (s ∷ b) d = ground (arith, count_in-cons a b s d, count_in-le a b d)

pub count_in_le_self : (a b : List Text) → count_in a b ≤ length a
unfolding count_in
count_in_le_self [] b = omega arith
count_in_le_self (t ∷ a) b = ground (arith, count_in_le_self a b)

pub count_in-All : (a b : List Text) → All (λ t. has t b ≡ true) a → count_in a b ≡ length a
unfolding count_in
count_in-All [] b h = refl
count_in-All (t ∷ a) b (h, hs) = ground (arith, count_in-All a b hs)

pub All-has :
    (a b : List Text) → ((t : Text) → has t a ≡ true → has t b ≡ true) → All (λ t. has t b ≡ true) a
unfolding has
All-has [] b h = tt
All-has (t ∷ a) b h =
    (h t (ground (arith, text_eq_iff t t)), All-has a b (λ s e. h s (ground arith)))

pub has-append : (t : Text) (a b : List Text) → has t (a ++ b) ≡ (has t a || has t b)
unfolding has
has-append t [] b = refl
has-append t (s ∷ a) b = ground (arith, has-append t a b)

-- A new element at the end.
pub IsTokenSet-append :
    (set : List Text) (t : Text) → IsTokenSet set → has t set ≡ false → IsTokenSet (set ++ t ∷ [])
unfolding has
IsTokenSet-append [] t d n = (refl, tt)
IsTokenSet-append (s ∷ set) t (p, d) n = (
  has-append s set (t ∷ []) ∙ ground (arith, text_eq_iff s t, text_eq_iff t s),
  IsTokenSet-append set t d (ground arith),
)

-- A set whose elements all lie in a list is no longer than the list.
pub length-le-All :
    (set b : List Text) → IsTokenSet set → All (λ t. has t b ≡ true) set → length set ≤ length b
length-le-All set b d a = omega (arith, count_in-le set b d, count_in-All set b a)
