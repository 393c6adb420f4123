-- ===== src/Matcher.antt =====
-- typescript/packages/core/src/matcher.ts: the matches of the step expressions in a sentence, and
-- the choice among them.
use mathlib.Core.Option
use varar.Base.{
  ℕ, zero, suc, ◌+◌, ◌-◌, Bool, true, false, ◌&&◌, List, [], ◌∷◌, ◌++◌, map, Option, none, some,
  leb, ltb, ◌==◌, if◌then◌else◌, length,
}
use varar.Text.{Text, text_eq}
use varar.Value.{Value}
use varar.Registry.{StepRegistration, Registry}
pub mod Greedy
pub mod Ties
pub mod Search
pub mod Searched
pub mod Sample
mod Tests

pub record ParamSpan : Type 0 where
  pub start : ℕ
  pub end : ℕ

pub record Hit : Type 0 where
  pub expression : Text
  pub step_def : StepRegistration
  pub match_start : ℕ
  pub match_end : ℕ
  pub args : List Value
  pub param_spans : List ParamSpan
  pub param_inner_spans : List ParamSpan
  pub formats : List (Option ℕ)

-- `matchEnd - matchStart`; a match ends at or behind its start
abbrev pub size : Hit → ℕ
size h = h.match_end - h.match_start

pub record AmbiguityCollision : Type 0 where
  pub match_start : ℕ
  pub match_end : ℕ
  pub candidates : List Hit

pub data ResolvedSteps : Type 0 where
  ok : List Hit → ResolvedSteps
  ambiguous : List AmbiguityCollision → ResolvedSteps

-- whether the comparison function of `sort` is at most 0
unfoldable pub precedes : Hit → Hit → Bool
precedes a b =
    if a.match_start == b.match_start
    then leb (size b) (size a)
    else leb a.match_start b.match_start

-- `sort` is stable, so what it returns is the stable sort by insertion.
unfoldable pub insert_hit : Hit → List Hit → List Hit
unfolding precedes
insert_hit h [] = h ∷ []
insert_hit h (k ∷ hits) = if precedes h k then h ∷ k ∷ hits else k ∷ insert_hit h hits

unfoldable pub sort_hits : List Hit → List Hit
unfolding insert_hit
sort_hits [] = []
sort_hits (h ∷ hits) = insert_hit h (sort_hits hits)

-- the test of the inner loop: two matches of one range
unfoldable pub same_range : Hit → Hit → Bool
same_range here candidate = candidate.match_start == here.match_start && size candidate == size here

abbrev collision : Hit → List Hit → List AmbiguityCollision
collision here tied =
    if ltb 1 (length tied)
    then record { match_start = here.match_start; match_end = here.match_end; candidates = tied }
      ∷ []
    else []

-- The two loops over the sorted matches: `tied` is the run that `here` opens, so far.
unfoldable pub collisions_from : Hit → List Hit → List Hit → List AmbiguityCollision
unfolding same_range
collisions_from here tied [] = collision here tied
collisions_from here tied (candidate ∷ rest) =
    let longer = collisions_from here (tied ++ candidate ∷ []) rest in
    let closed = collision here tied ++ collisions_from candidate (candidate ∷ []) rest in
    if same_range here candidate then longer else closed

unfoldable pub collisions : List Hit → List AmbiguityCollision
unfolding collisions_from
collisions [] = []
collisions (h ∷ hits) = collisions_from h (h ∷ []) hits

-- The last loop. The cursor starts at -1 in the source, and skips nothing there or at 0.
unfoldable pub select : ℕ → List Hit → List Hit
select cursor [] = []
select cursor (h ∷ hits) =
    let skipped = select cursor hits in
    let taken = h ∷ select h.match_end hits in if ltb h.match_start cursor then skipped else taken

abbrev resolved : List Hit → List AmbiguityCollision → ResolvedSteps
resolved sorted [] = ok (select 0 sorted)
resolved sorted (c ∷ cs) = ambiguous (c ∷ cs)

unfoldable pub resolve_hits : List Hit → ResolvedSteps
unfolding sort_hits collisions select
resolve_hits [] = ok []
resolve_hits (h ∷ hits) = let sorted = sort_hits (h ∷ hits) in resolved sorted (collisions sorted)
