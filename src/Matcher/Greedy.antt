-- ===== src/Matcher/Greedy.antt =====
-- The order of the matches, and what `resolveHits` picks when there is no ambiguity.
use varar.Base.{
  ℕ, ◌≤◌, ◌<◌, true, false, List, [], ◌∷◌, ◌≡◌, refl, sym, subst, ◌↔◌, ◌⊎◌, inl, inr, arith, ltb,
  ◌==◌, Bool-cases, All, Any, All-map,
}
use varar.Matcher.{
  Hit, size, precedes, insert_hit, sort_hits, select, ok, AmbiguityCollision, collisions, resolved,
  resolve_hits,
}

pub precedes_trans : (a b c : Hit) → precedes a b ≡ true → precedes b c ≡ true → precedes a c ≡ true
unfolding precedes
precedes_trans a b c h k = ground arith

precedes-total : (a b : Hit) → precedes a b ≡ false → precedes b a ≡ true
unfolding precedes
precedes-total a b h = ground arith

abbrev pub IsSorted : List Hit → Type 0
IsSorted [] = Unit
IsSorted (h ∷ hits) = All (λ k. precedes h k ≡ true) hits × IsSorted hits

-- What holds of a match and of a list holds of the list with the match put in.
pub All-insert_hit :
    (P : Hit → Type 0) (h : Hit) (hits : List Hit) → All P (insert_hit h hits) ↔ (P h × All P hits)
unfolding insert_hit
All-insert_hit P h [] = (λ p. p, λ p. p)
All-insert_hit P h (k ∷ hits) = elim (Bool-cases (precedes h k)) [
  | inl e ↦ rw e (λ p. p, λ p. p)
  | inr e ↦ rw e (
    λ p. let (a, b) = (All-insert_hit P h hits).0 p.1 in (a, (p.0, b)),
    λ p. (p.1.0, (All-insert_hit P h hits).1 (p.0, p.1.1)),
  )
]

pub All-sort_hits : (P : Hit → Type 0) (hits : List Hit) → All P hits ↔ All P (sort_hits hits)
unfolding sort_hits
All-sort_hits P [] = (λ p. p, λ p. p)
All-sort_hits P (h ∷ hits) = (
  λ p. (All-insert_hit P h (sort_hits hits)).1 (p.0, (All-sort_hits P hits).0 p.1),
  λ p. let (a, b) = (All-insert_hit P h (sort_hits hits)).0 p in (a, (All-sort_hits P hits).1 b),
)

insert_hit-IsSorted : (h : Hit) (hits : List Hit) → IsSorted hits → IsSorted (insert_hit h hits)
unfolding insert_hit
insert_hit-IsSorted h [] s = (tt, tt)
insert_hit-IsSorted h (k ∷ hits) s = elim (Bool-cases (precedes h k)) [
  | inl e ↦ rw e ((e, All-map (λ j. precedes_trans h k j e) hits s.0), s)
  | inr e ↦ rw e (
    (All-insert_hit (λ j. precedes k j ≡ true) h hits).1 (precedes-total h k e, s.0),
    insert_hit-IsSorted h hits s.1,
  )
]

pub sort_hits-IsSorted : (hits : List Hit) → IsSorted (sort_hits hits)
unfolding sort_hits
sort_hits-IsSorted [] = tt
sort_hits-IsSorted (h ∷ hits) = insert_hit-IsSorted h (sort_hits hits) (sort_hits-IsSorted hits)

-- `s` starts earlier than `h`, or at the same place and is at least as long.
abbrev pub Precedes : Hit → Hit → Type 0
Precedes s h =
    (s.match_start < h.match_start) ⊎ ((s.match_start ≡ h.match_start) × (size h ≤ size s))

-- `s` precedes `h`, and ends behind its start.
abbrev pub Blocks : Hit → Hit → Type 0
Blocks s h = Precedes s h × (h.match_start < s.match_end)

precedes-Precedes : (s h : Hit) → precedes s h ≡ true → Precedes s h
unfolding precedes
precedes-Precedes s h e = elim (Bool-cases (s.match_start == h.match_start)) [
  | inl q ↦ inr (ground arith, ground arith)
  | inr q ↦ inl (ground arith)
]

-- each starts at or behind the end of the one before it, the first one at or behind `cursor`
abbrev pub IsDisjoint : ℕ → List Hit → Type 0
IsDisjoint cursor [] = Unit
IsDisjoint cursor (s ∷ steps) = (cursor ≤ s.match_start) × IsDisjoint s.match_end steps

abbrev pub IsPicked : List Hit → Hit → Type 0
IsPicked steps h = Any (λ s. (s ≡ h) ⊎ Blocks s h) steps

select-IsDisjoint : (cursor : ℕ) (hits : List Hit) → IsDisjoint cursor (select cursor hits)
unfolding select
select-IsDisjoint cursor [] = tt
select-IsDisjoint cursor (h ∷ hits) = elim (Bool-cases (ltb h.match_start cursor)) [
  | inl e ↦ rw e (select-IsDisjoint cursor hits)
  | inr e ↦ rw e (ground arith, select-IsDisjoint h.match_end hits)
]

select-All :
    (P : Hit → Type 0) (cursor : ℕ) (hits : List Hit) → All P hits → All P (select cursor hits)
unfolding select
select-All P cursor [] p = tt
select-All P cursor (h ∷ hits) (p, ps) = elim (Bool-cases (ltb h.match_start cursor)) [
  | inl e ↦ rw e (select-All P cursor hits ps)
  | inr e ↦ rw e (p, select-All P h.match_end hits ps)
]

select_skip :
    (cursor : ℕ) (h : Hit) (hits : List Hit)
    → ltb h.match_start cursor ≡ true
    → select cursor (h ∷ hits) ≡ select cursor hits
unfolding select
select_skip cursor h hits e = rw e

select_take :
    (cursor : ℕ) (h : Hit) (hits : List Hit)
    → ltb h.match_start cursor ≡ false
    → select cursor (h ∷ hits) ≡ h ∷ select h.match_end hits
unfolding select
select_take cursor h hits e = rw e

-- behind a picked match `s`
select-IsPicked :
    (s : Hit) (hits : List Hit)
    → All (λ k. precedes s k ≡ true) hits
    → IsSorted hits
    → All (λ h. Blocks s h ⊎ IsPicked (select s.match_end hits) h) hits
select-IsPicked s [] p o = tt
select-IsPicked s (h ∷ hits) (p, ps) (o, os) = elim (Bool-cases (ltb h.match_start s.match_end)) [
  | inl e ↦
      subst (λ l. All (λ k. Blocks s k ⊎ IsPicked l k) (h ∷ hits))
        (sym (select_skip s.match_end h hits e))
        (inl (precedes-Precedes s h p, ground arith), select-IsPicked s hits ps os)
  | inr e ↦
      subst (λ l. All (λ k. Blocks s k ⊎ IsPicked l k) (h ∷ hits))
        (sym (select_take s.match_end h hits e))
        (inr (inl (inl refl)), All-map (λ k c. inr (later k c)) hits (select-IsPicked h hits o os))
]
  where
    later :
        (k : Hit)
        → (Blocks h k ⊎ IsPicked (select h.match_end hits) k)
        → IsPicked (h ∷ select h.match_end hits) k
    later k (inl b) = inl (inr b)
    later k (inr q) = inr q

select_first-IsPicked : (hits : List Hit) → IsSorted hits → All (IsPicked (select 0 hits)) hits
select_first-IsPicked [] s = tt
select_first-IsPicked (h ∷ hits) s =
    subst (λ l. All (IsPicked l) (h ∷ hits)) (sym (select_take 0 h hits (ground arith)))
      (inl (inl refl), All-map later hits (select-IsPicked h hits s.0 s.1))
  where
    later :
        (k : Hit)
        → (Blocks h k ⊎ IsPicked (select h.match_end hits) k)
        → IsPicked (h ∷ select h.match_end hits) k
    later k (inl b) = inl (inr b)
    later k (inr q) = inr q

resolved-eq-ok :
    (sorted : List Hit) (cs : List AmbiguityCollision) (steps : List Hit)
    → resolved sorted cs ≡ ok steps
    → (steps ≡ select 0 sorted) × (cs ≡ [])
resolved-eq-ok sorted [] steps e = (cc, refl)
resolved-eq-ok sorted (c ∷ cs) steps e = cc

pub resolve_hits-eq-ok :
    (hits steps : List Hit)
    → resolve_hits hits ≡ ok steps
    → (steps ≡ select 0 (sort_hits hits)) × (collisions (sort_hits hits) ≡ [])
unfolding resolve_hits
resolve_hits-eq-ok [] steps e = (unfold sort_hits select in cc, unfold sort_hits collisions in refl)
resolve_hits-eq-ok (h ∷ hits) steps e = resolved-eq-ok (sort_hits (h ∷ hits)) _ steps e

Any-refl : (hits : List Hit) → All (λ s. Any (λ h. h ≡ s) hits) hits
Any-refl [] = tt
Any-refl (h ∷ hits) = (inl refl, All-map (λ s a. inr a) hits (Any-refl hits))

-- If the matches are resolved, the steps are matches that do not overlap, in the order of the text,
-- and every match is a step or starts inside of a step that precedes it: one that starts earlier, or
-- at the same place and is at least as long.
pub resolve_hits_sound :
    (hits steps : List Hit)
    → resolve_hits hits ≡ ok steps
    → IsDisjoint 0 steps × All (λ s. Any (λ h. h ≡ s) hits) steps × All (IsPicked steps) hits
resolve_hits_sound hits steps e =
    let is = (resolve_hits-eq-ok hits steps e).0 in
    rw is (
      select-IsDisjoint 0 (sort_hits hits),
      select-All _ 0 (sort_hits hits) ((All-sort_hits _ hits).0 (Any-refl hits)),
      (All-sort_hits _ hits).1 (select_first-IsPicked (sort_hits hits) (sort_hits-IsSorted hits)),
    )
