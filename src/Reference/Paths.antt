-- ===== src/Reference/Paths.antt =====
-- The segments of joined paths.
use varar.Base.{
  ◌||◌, List, [], ◌∷◌, ◌++◌, none, some, ◌≡◌, ◌≢◌, refl, ap, sym, subst, ◌∙◌, arith, All,
  All-append, Bool-cases, Option-cases, inl, inr, ◌⊎◌,
}
use varar.Text.{Text, text_eq, split_on, join_on}
use varar.Text.Laws.{text_eq_iff}
use varar.Text.Pieces.{Lacks, split_on-Lacks, split_on-join_on}
use varar.Reference.{
  slash, here, up, last_segment, pop, climb, enter_segment, join_segments, dir_segments, join_posix,
}

-- neither empty, nor `.`, nor `..`
abbrev pub IsName : Text → Type 0
IsName s = (s ≢ []) × (s ≢ here) × (s ≢ up)

-- first `..`s, then names
abbrev pub IsNormal : List Text → Type 0
IsNormal [] = Unit
IsNormal (s ∷ segments) = ((s ≡ up) × IsNormal segments) ⊎ (IsName s × All IsName segments)

All-pop : (P : Text → Type 0) (segments : List Text) → All P segments → All P (pop segments)
unfolding pop
All-pop P [] a = tt
All-pop P (s ∷ []) a = tt
All-pop P (s ∷ t ∷ segments) (p, a) = (p, All-pop P (t ∷ segments) a)

pop-IsNormal : (segments : List Text) → IsNormal segments → IsNormal (pop segments)
unfolding pop
pop-IsNormal [] n = tt
pop-IsNormal (s ∷ []) n = tt
pop-IsNormal (s ∷ t ∷ segments) (inl (u, n)) = inl (u, pop-IsNormal (t ∷ segments) n)
pop-IsNormal (s ∷ t ∷ segments) (inr (p, a)) = inr (p, All-pop IsName (t ∷ segments) a)

name-IsNormal :
    (segments : List Text) (s : Text) → IsNormal segments → IsName s → IsNormal (segments ++ s ∷ [])
name-IsNormal [] s n p = inr (p, tt)
name-IsNormal (t ∷ segments) s (inl (u, n)) p = inl (u, name-IsNormal segments s n p)
name-IsNormal (t ∷ segments) s (inr (q, a)) p =
    inr (q, All-append IsName segments (s ∷ []) a (p, tt))

last-All :
    (P : Text → Type 0) (s : Text) (segments : List Text) (l : Text)
    → All P (s ∷ segments)
    → last_segment (s ∷ segments) ≡ some l
    → P l
unfolding last_segment
last-All P s [] l (p, a) e = let same : s ≡ l = cc in subst P same p
last-All P s (t ∷ segments) l (p, a) e = last-All P t segments l a e

last_segment-ne-none : (s : Text) (segments : List Text) → last_segment (s ∷ segments) ≢ none
unfolding last_segment
last_segment-ne-none s [] e = cc
last_segment-ne-none s (t ∷ segments) e = last_segment-ne-none t segments e

-- behind `..`s only
up-IsNormal :
    (segments : List Text)
    → IsNormal segments
    → (last_segment segments ≡ none) ⊎ (last_segment segments ≡ some up)
    → IsNormal (segments ++ up ∷ [])
unfolding last_segment
up-IsNormal [] n h = inl (refl, tt)
up-IsNormal (s ∷ []) (inl (u, n)) h = inl (u, inl (refl, tt))
up-IsNormal (s ∷ t ∷ segments) (inl (u, n)) h = inl (u, up-IsNormal (t ∷ segments) n h)
up-IsNormal (s ∷ segments) (inr (p, a)) (inl h) = absurd (last_segment-ne-none s segments h)
up-IsNormal (s ∷ segments) (inr (p, a)) (inr h) =
    absurd ((last-All IsName s segments up (p, a) h).2 refl)

climb-IsNormal : (segments : List Text) → IsNormal segments → IsNormal (climb segments)
unfolding climb
climb-IsNormal segments n = elim (Option-cases (last_segment segments)) [
  | inl e ↦ rw (climb, e) (up-IsNormal segments n (inl e))
  | inr (l, e) ↦ elim (Bool-cases (text_eq l up)) [
    | inl q ↦
        rw (climb, e, q)
          (up-IsNormal segments n (inr (let u : l ≡ up = (text_eq_iff l up).0 q in e ∙ ap some u)))
    | inr q ↦ rw (climb, e, q) (pop-IsNormal segments n)
  ]
]

enter_segment-IsNormal :
    (segments : List Text) (s : Text) → IsNormal segments → IsNormal (enter_segment segments s)
unfolding enter_segment
enter_segment-IsNormal segments s n = elim (Bool-cases (text_eq s [] || text_eq s here)) [
  | inl e ↦ rw (enter_segment, e) n
  | inr e ↦ elim (Bool-cases (text_eq s up)) [
    | inl q ↦ rw (enter_segment, e, q) (climb-IsNormal segments n)
    | inr q ↦
        rw (enter_segment, e, q)
          (name-IsNormal segments s n (
            λ u. ground (arith, text_eq_iff s []),
            λ u. ground (arith, text_eq_iff s here),
            λ u. ground (arith, text_eq_iff s up),
          ))
  ]
]

join_segments-IsNormal :
    (segments rel : List Text) → IsNormal segments → IsNormal (join_segments segments rel)
unfolding join_segments
join_segments-IsNormal segments [] n = n
join_segments-IsNormal segments (s ∷ rel) n =
    join_segments-IsNormal (enter_segment segments s) rel (enter_segment-IsNormal segments s n)

-- No segment contains the separator.
enter_segment-Lacks :
    (segments : List Text) (s : Text)
    → All (Lacks slash) segments
    → Lacks slash s
    → All (Lacks slash) (enter_segment segments s)
unfolding enter_segment climb
enter_segment-Lacks segments s a l =
    let up_behind : All (Lacks slash) (segments ++ up ∷ []) =
      All-append (Lacks slash) segments (up ∷ []) a ((refl, (refl, tt)), tt) in
    elim (Bool-cases (text_eq s [] || text_eq s here)) [
      | inl e ↦ rw (enter_segment, e) a
      | inr e ↦ elim (Bool-cases (text_eq s up)) [
        | inr q ↦ rw (enter_segment, e, q) (All-append (Lacks slash) segments (s ∷ []) a (l, tt))
        | inl q ↦ elim (Option-cases (last_segment segments)) [
          | inl n ↦ rw (enter_segment, climb, e, q, n) up_behind
          | inr (t, n) ↦ elim (Bool-cases (text_eq t up)) [
            | inl r ↦ rw (enter_segment, climb, e, q, n, r) up_behind
            | inr r ↦ rw (enter_segment, climb, e, q, n, r) (All-pop (Lacks slash) segments a)
          ]
        ]
      ]
    ]

join_segments-Lacks :
    (segments rel : List Text)
    → All (Lacks slash) segments
    → All (Lacks slash) rel
    → All (Lacks slash) (join_segments segments rel)
unfolding join_segments
join_segments-Lacks segments [] a b = a
join_segments-Lacks segments (s ∷ rel) a (l, b) =
    join_segments-Lacks (enter_segment segments s) rel (enter_segment-Lacks segments s a l) b

dir_segments-Lacks : (dir : Text) → All (Lacks slash) (dir_segments dir)
unfolding dir_segments
dir_segments-Lacks [] = tt
dir_segments-Lacks (c ∷ dir) = split_on-Lacks slash (c ∷ dir)

dir_segments-split_on : (path : Text) → path ≢ [] → dir_segments path ≡ split_on slash path
unfolding dir_segments
dir_segments-split_on [] h = absurd (h refl)
dir_segments-split_on (c ∷ path) h = refl

join_on-ne-nil : (s : Text) (segments : List Text) → s ≢ [] → join_on slash (s ∷ segments) ≢ []
unfolding join_on
join_on-ne-nil s [] h e = h e
join_on-ne-nil [] (t ∷ segments) h e = h refl
join_on-ne-nil (c ∷ s) (t ∷ segments) h e = cc

IsNormal-ne-nil : (s : Text) (segments : List Text) → IsNormal (s ∷ segments) → s ≢ []
IsNormal-ne-nil s segments (inl (u, n)) e = ground arith
IsNormal-ne-nil s segments (inr (p, a)) e = p.0 e

-- The segments of a normal path are what splitting it gives.
dir_segments-join_on :
    (segments : List Text)
    → All (Lacks slash) segments
    → IsNormal segments
    → dir_segments (join_on slash segments) ≡ segments
dir_segments-join_on [] a n = unfold dir_segments join_on in refl
dir_segments-join_on (s ∷ segments) a n =
    dir_segments-split_on (join_on slash (s ∷ segments))
      (join_on-ne-nil s segments (IsNormal-ne-nil s segments n))
    ∙ split_on-join_on slash s segments a

-- Whatever the relative path is: a path that is joined to a normal directory is normal, which is to say
-- that where it is split at its slashes, `..`s stand in front only, and none of the other segments is
-- empty or `.`; a directory and a path may be empty.
pub join_posix-IsNormal :
    (dir rel : Text) → IsNormal (dir_segments dir) → IsNormal (dir_segments (join_posix dir rel))
unfolding join_posix
join_posix-IsNormal dir rel n =
    let segments = join_segments (dir_segments dir) (split_on slash rel) in
    let normal = join_segments-IsNormal (dir_segments dir) (split_on slash rel) n in
    let apart =
      join_segments-Lacks (dir_segments dir) (split_on slash rel) (dir_segments-Lacks dir)
        (split_on-Lacks slash rel) in
    subst IsNormal (sym (dir_segments-join_on segments apart normal)) normal
