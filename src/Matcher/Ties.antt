-- ===== src/Matcher/Ties.antt =====
-- When the matches of a sentence are ambiguous.
use varar.Base.{
  ◌≤◌, true, false, List, [], ◌∷◌, ◌++◌, ◌≡◌, refl, ◌↔◌, inl, inr, arith, Bool-cases, All, All-map,
  length, length-append,
}
use varar.Matcher.{
  Hit, precedes, insert_hit, sort_hits, select, same_range, collision, collisions_from, collisions,
  AmbiguityCollision, ok, resolve_hits,
}
use varar.Matcher.Greedy.{
  IsSorted, sort_hits-IsSorted, All-insert_hit, All-sort_hits, resolve_hits-eq-ok,
}

-- No two of the matches have one range.
abbrev pub HasDistinctRanges : List Hit → Type 0
HasDistinctRanges [] = Unit
HasDistinctRanges (h ∷ hits) = All (λ k. same_range h k ≡ false) hits × HasDistinctRanges hits

same_range-sym : (a b : Hit) → same_range a b ≡ false → same_range b a ≡ false
unfolding same_range
same_range-sym a b h = ground arith

-- between two matches that are not of one range no third one of the first range stands
same_range-later :
    (a b c : Hit)
    → precedes a b ≡ true
    → precedes b c ≡ true
    → same_range a b ≡ false
    → same_range a c ≡ false
unfolding same_range precedes
same_range-later a b c h k n = ground arith

insert_hit-HasDistinctRanges :
    (h : Hit) (hits : List Hit)
    → HasDistinctRanges (insert_hit h hits)
      ↔ (All (λ k. same_range h k ≡ false) hits × HasDistinctRanges hits)
unfolding insert_hit
insert_hit-HasDistinctRanges h [] = (λ d. d, λ d. d)
insert_hit-HasDistinctRanges h (k ∷ hits) = elim (Bool-cases (precedes h k)) [
  | inl e ↦ rw e (λ d. d, λ d. d)
  | inr e ↦ rw e (
    λ d.
        let (kh, ks) = (All-insert_hit (λ j. same_range k j ≡ false) h hits).0 d.0 in
        let (hs, rest) = (insert_hit-HasDistinctRanges h hits).0 d.1 in
        ((same_range-sym k h kh, hs), (ks, rest)),
    λ d. (
      (All-insert_hit (λ j. same_range k j ≡ false) h hits).1 (same_range-sym h k d.0.0, d.1.0),
      (insert_hit-HasDistinctRanges h hits).1 (d.0.1, d.1.1),
    ),
  )
]

sort_hits-HasDistinctRanges :
    (hits : List Hit) → HasDistinctRanges hits ↔ HasDistinctRanges (sort_hits hits)
unfolding sort_hits
sort_hits-HasDistinctRanges [] = (λ d. d, λ d. d)
sort_hits-HasDistinctRanges (h ∷ hits) = (
  λ d.
      (insert_hit-HasDistinctRanges h (sort_hits hits)).1
        ((All-sort_hits _ hits).0 d.0, (sort_hits-HasDistinctRanges hits).0 d.1),
  λ d.
      let (a, b) = (insert_hit-HasDistinctRanges h (sort_hits hits)).0 d in
      ((All-sort_hits _ hits).1 a, (sort_hits-HasDistinctRanges hits).1 b),
)

append-eq-nil : (xs ys : List AmbiguityCollision) → (xs ++ ys) ≡ [] → (xs ≡ []) × (ys ≡ [])
append-eq-nil [] ys e = (refl, e)
append-eq-nil (x ∷ xs) ys e = cc

-- no collision is reported: the run so far is a single match, and so is every later one
collisions_from_complete :
    (here : Hit) (tied rest : List Hit)
    → IsSorted (here ∷ rest)
    → 1 ≤ length tied
    → collisions_from here tied rest ≡ []
    → (length tied ≤ 1) × HasDistinctRanges (here ∷ rest)
unfolding collisions_from
collisions_from_complete here tied [] s l e = (ground arith, (tt, tt))
collisions_from_complete here tied (c ∷ rest) s l e = elim (Bool-cases (same_range here c)) [
  | inl same ↦
      let longer =
        collisions_from_complete here (tied ++ c ∷ []) rest (s.0.1, s.1.1)
          (omega (arith, length-append {0} tied (c ∷ []))) (rw same at e) in
      absurd (omega (arith, longer.0, length-append {0} tied (c ∷ [])))
  | inr apart ↦
      let (one, more) = append-eq-nil (collision here tied) _ (rw apart at e) in
      let (_, distinct) = collisions_from_complete c (c ∷ []) rest s.1 (omega arith) more in
      (
        ground arith,
        ((apart, All-map (λ k p. same_range-later here c k s.0.0 p apart) rest s.1.0), distinct),
      )
]

collisions_from_sound :
    (here : Hit) (tied rest : List Hit)
    → IsSorted (here ∷ rest)
    → length tied ≤ 1
    → HasDistinctRanges (here ∷ rest)
    → collisions_from here tied rest ≡ []
unfolding collisions_from
collisions_from_sound here tied [] s l d = ground arith
collisions_from_sound here tied (c ∷ rest) s l d =
    ground (arith, collisions_from_sound c (c ∷ []) rest s.1 (omega arith) d.1)

collisions-eq-nil :
    (sorted : List Hit) → IsSorted sorted → (collisions sorted ≡ []) ↔ HasDistinctRanges sorted
unfolding collisions
collisions-eq-nil [] s = (λ e. tt, λ d. refl)
collisions-eq-nil (h ∷ hits) s = (
  λ e. (collisions_from_complete h (h ∷ []) hits s (omega arith) e).1,
  λ d. collisions_from_sound h (h ∷ []) hits s (omega arith) d,
)

resolve_hits_total :
    (hits : List Hit)
    → collisions (sort_hits hits) ≡ []
    → resolve_hits hits ≡ ok (select 0 (sort_hits hits))
unfolding resolve_hits
resolve_hits_total [] e = unfold sort_hits select in refl
resolve_hits_total (h ∷ hits) e = rw e

-- The matches are resolved exactly when no two of them have the same start and the same length.
pub resolve_hits-ok_iff :
    (hits : List Hit)
    → ((steps : List Hit) × (resolve_hits hits ≡ ok steps)) ↔ HasDistinctRanges hits
resolve_hits-ok_iff hits = (
  λ r. (sort_hits-HasDistinctRanges hits).1 (
      (collisions-eq-nil (sort_hits hits) (sort_hits-IsSorted hits)).0
        (resolve_hits-eq-ok hits r.0 r.1).1),
  λ d. (
    select 0 (sort_hits hits),
    resolve_hits_total hits (
        (collisions-eq-nil (sort_hits hits) (sort_hits-IsSorted hits)).1
          ((sort_hits-HasDistinctRanges hits).0 d)),
  ),
)
