-- ===== src/Drift/Lock/Sorted.antt =====
-- Sorting the oaths of a lock file by their paths.
use varar.Base.{
  true, false, ◌||◌, List, [], ◌∷◌, map, some, ◌≡◌, refl, ap, sym, ◌∙◌, arith, Bool-cases, inl, inr,
  if◌then◌else◌, All,
}
use varar.Text.{Text, text_eq}
use varar.Text.Laws.{text_eq_iff}
use varar.Text.Sets.{has, IsTokenSet}
use varar.Drift.{OathBaseline}
use varar.Drift.Lock.{text_le, insert_oath, sort_oaths, oath_at, set_oath}

abbrev pub Oaths : Type 0
Oaths = List (Text × OathBaseline)

abbrev pub path_of : Text × OathBaseline → Text
path_of p = p.0

text_le_self : (s : Text) → text_le s s ≡ true
unfolding text_le
text_le_self [] = refl
text_le_self (a ∷ s) = ground (arith, text_le_self s)

text_le_total : (s t : Text) → text_le s t ≡ false → text_le t s ≡ true
unfolding text_le
text_le_total [] t e = absurd (ground arith)
text_le_total (a ∷ s) [] e = refl
text_le_total (a ∷ s) (b ∷ t) e = ground (arith, text_le_total s t)

-- Every path is at most the next one.
abbrev pub IsSorted : Oaths → Type 0
IsSorted [] = Unit
IsSorted (p ∷ []) = Unit
IsSorted (p ∷ q ∷ oaths) = (text_le p.0 q.0 ≡ true) × IsSorted (q ∷ oaths)

insert_oath-IsSorted :
    (p : Text × OathBaseline) (oaths : Oaths) → IsSorted oaths → IsSorted (insert_oath p oaths)
unfolding insert_oath
insert_oath-IsSorted p [] h = tt
insert_oath-IsSorted p (q ∷ []) h = elim (Bool-cases (text_le p.0 q.0)) [
  | inl e ↦ rw e (e, tt)
  | inr e ↦ rw e (text_le_total p.0 q.0 e, tt)
]
insert_oath-IsSorted p (q ∷ r ∷ oaths) (k, h) = elim (Bool-cases (text_le p.0 q.0)) [
  | inl e ↦ rw e (e, (k, h))
  | inr e ↦ elim (Bool-cases (text_le p.0 r.0)) [
    | inl d ↦ rw (e, d) (text_le_total p.0 q.0 e, (d, h))
    | inr d ↦ rw (e, d) (k, unfold insert_oath in rw d at (insert_oath-IsSorted p (r ∷ oaths) h))
  ]
]

pub sort_oaths-IsSorted : (oaths : Oaths) → IsSorted (sort_oaths oaths)
unfolding sort_oaths
sort_oaths-IsSorted [] = tt
sort_oaths-IsSorted (p ∷ oaths) =
    insert_oath-IsSorted p (sort_oaths oaths) (sort_oaths-IsSorted oaths)

-- Sorting changes nothing in a sorted list.
pub sort_oaths_sorted : (oaths : Oaths) → IsSorted oaths → sort_oaths oaths ≡ oaths
unfolding sort_oaths insert_oath
sort_oaths_sorted [] h = refl
sort_oaths_sorted (p ∷ []) h = refl
sort_oaths_sorted (p ∷ q ∷ oaths) (k, h) =
    ap (insert_oath p) (sort_oaths_sorted (q ∷ oaths) h)
    ∙ ap (λ b. if b then p ∷ q ∷ oaths else q ∷ insert_oath p oaths) k

-- what holds of all paths
insert_oath-All :
    (P : Text × OathBaseline → Type 0) (p : Text × OathBaseline) (oaths : Oaths)
    → P p
    → All P oaths
    → All P (insert_oath p oaths)
unfolding insert_oath
insert_oath-All P p [] h k = (h, tt)
insert_oath-All P p (q ∷ oaths) h k = elim (Bool-cases (text_le p.0 q.0)) [
  | inl e ↦ rw e (h, k)
  | inr e ↦ rw e (k.0, insert_oath-All P p oaths h k.1)
]

pub sort_oaths-All :
    (P : Text × OathBaseline → Type 0) (oaths : Oaths) → All P oaths → All P (sort_oaths oaths)
unfolding sort_oaths
sort_oaths-All P [] h = tt
sort_oaths-All P (p ∷ oaths) (h, k) =
    insert_oath-All P p (sort_oaths oaths) h (sort_oaths-All P oaths k)

has-insert_oath :
    (k : Text) (p : Text × OathBaseline) (oaths : Oaths)
    → has k (map path_of (insert_oath p oaths)) ≡ text_eq p.0 k || has k (map path_of oaths)
unfolding insert_oath has
has-insert_oath k p [] = refl
has-insert_oath k p (q ∷ oaths) = elim (Bool-cases (text_le p.0 q.0)) [
  | inl e ↦ rw e refl
  | inr e ↦ ground (arith, has-insert_oath k p oaths)
]

insert_oath-IsTokenSet :
    (p : Text × OathBaseline) (oaths : Oaths)
    → has p.0 (map path_of oaths) ≡ false
    → IsTokenSet (map path_of oaths)
    → IsTokenSet (map path_of (insert_oath p oaths))
unfolding insert_oath has
insert_oath-IsTokenSet p [] h d = (refl, tt)
insert_oath-IsTokenSet p (q ∷ oaths) h (n, d) = elim (Bool-cases (text_le p.0 q.0)) [
  | inl e ↦ rw e (h, (n, d))
  | inr e ↦ rw e (
    has-insert_oath q.0 p oaths ∙ ground (arith, text_eq_iff p.0 q.0, text_eq_iff q.0 p.0),
    insert_oath-IsTokenSet p oaths (ground arith) d,
  )
]

has-sort_oaths :
    (k : Text) (oaths : Oaths) → has k (map path_of (sort_oaths oaths)) ≡ has k (map path_of oaths)
unfolding sort_oaths has
has-sort_oaths k [] = refl
has-sort_oaths k (p ∷ oaths) =
    has-insert_oath k p (sort_oaths oaths) ∙ ap (λ b. text_eq p.0 k || b) (has-sort_oaths k oaths)

pub sort_oaths-IsTokenSet :
    (oaths : Oaths) → IsTokenSet (map path_of oaths) → IsTokenSet (map path_of (sort_oaths oaths))
unfolding sort_oaths
sort_oaths-IsTokenSet [] d = tt
sort_oaths-IsTokenSet (p ∷ oaths) (n, d) =
    insert_oath-IsTokenSet p (sort_oaths oaths) (has-sort_oaths p.0 oaths ∙ n)
      (sort_oaths-IsTokenSet oaths d)

-- A path that is behind one with the name has another name.
name_apart : (k s t : Text) → text_le s t ≡ false → text_eq t k ≡ true → text_eq s k ≡ false
name_apart k s t e a = elim (Bool-cases (text_eq s k)) [
  | inr b ↦ b
  | inl b ↦
      let same : s ≡ t = (text_eq_iff s k).0 b ∙ sym ((text_eq_iff t k).0 a) in
      absurd (true-ne-false (sym (text_le_self s) ∙ ap (text_le s) same ∙ e))
]
  where
    true-ne-false : (true ≡ false) → ⊥
    true-ne-false q = ground arith

oath_at-insert_oath :
    (k : Text) (p : Text × OathBaseline) (oaths : Oaths)
    → oath_at k (insert_oath p oaths) ≡ oath_at k (p ∷ oaths)
unfolding insert_oath oath_at
oath_at-insert_oath k p [] = refl
oath_at-insert_oath k p (q ∷ oaths) = elim (Bool-cases (text_le p.0 q.0)) [
  | inl e ↦ rw e refl
  | inr e ↦
      let apart : text_eq q.0 k ≡ true → text_eq p.0 k ≡ false = λ a. name_apart k p.0 q.0 e a in
      ground (arith, oath_at-insert_oath k p oaths)
]

pub oath_at-sort_oaths : (k : Text) (oaths : Oaths) → oath_at k (sort_oaths oaths) ≡ oath_at k oaths
unfolding sort_oaths oath_at
oath_at-sort_oaths k [] = refl
oath_at-sort_oaths k (p ∷ oaths) =
    oath_at-insert_oath k p (sort_oaths oaths)
    ∙ ap (λ o. if text_eq p.0 k then some p.1 else o) (oath_at-sort_oaths k oaths)

-- a written entry
pub oath_at-set_oath :
    (k : Text) (b : OathBaseline) (oaths : Oaths) → oath_at k (set_oath k b oaths) ≡ some b
unfolding oath_at set_oath
oath_at-set_oath k b [] = ground (arith, text_eq_iff k k)
oath_at-set_oath k b ((j, c) ∷ oaths) = ground (arith, oath_at-set_oath k b oaths)

-- An entry that is written again changes nothing.
pub set_oath_same :
    (k : Text) (b : OathBaseline) (oaths : Oaths)
    → oath_at k oaths ≡ some b
    → set_oath k b oaths ≡ oaths
unfolding oath_at set_oath
set_oath_same k b [] e = absurd (cc)
set_oath_same k b ((j, c) ∷ oaths) e = elim (Bool-cases (text_eq j k)) [
  | inl q ↦ ground arith
  | inr q ↦ ground (arith, set_oath_same k b oaths)
]

pub set_oath-All :
    (P : Text → Type 0) (k : Text) (b : OathBaseline) (oaths : Oaths)
    → P k
    → All (λ p. P p.0) oaths
    → All (λ p. P p.0) (set_oath k b oaths)
unfolding set_oath
set_oath-All P k b [] h a = (h, tt)
set_oath-All P k b ((j, c) ∷ oaths) h (i, a) = elim (Bool-cases (text_eq j k)) [
  | inl q ↦ rw q (i, a)
  | inr q ↦ rw q (i, set_oath-All P k b oaths h a)
]

has-set_oath :
    (l k : Text) (b : OathBaseline) (oaths : Oaths)
    → has l (map path_of oaths) ≡ false
    → text_eq k l ≡ false
    → has l (map path_of (set_oath k b oaths)) ≡ false
unfolding set_oath has
has-set_oath l k b [] h n = ground arith
has-set_oath l k b ((j, c) ∷ oaths) h n = ground (arith, has-set_oath l k b oaths)

pub set_oath-IsTokenSet :
    (k : Text) (b : OathBaseline) (oaths : Oaths)
    → IsTokenSet (map path_of oaths)
    → IsTokenSet (map path_of (set_oath k b oaths))
unfolding set_oath has
set_oath-IsTokenSet k b [] d = (refl, tt)
set_oath-IsTokenSet k b ((j, c) ∷ oaths) (n, d) = elim (Bool-cases (text_eq j k)) [
  | inl q ↦ rw q (n, d)
  | inr q ↦ rw q (
    has-set_oath j k b oaths n (ground (arith, text_eq_iff j k, text_eq_iff k j)),
    set_oath-IsTokenSet k b oaths d,
  )
]
