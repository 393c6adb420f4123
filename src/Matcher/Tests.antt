-- ===== src/Matcher/Tests.antt =====
-- Runs of matcher.ts, and its theorems at concrete matches.
use varar.Base.{ℕ, List, [], ◌∷◌, ◌≡◌, refl, none, All, Any, ◌↔◌}
use varar.Matcher.{Hit, ok, resolve_hits}
use varar.Matcher.Greedy.{IsDisjoint, IsPicked, resolve_hits_sound}
use varar.Matcher.Ties.{HasDistinctRanges, resolve_hits-ok_iff}
use varar.Value.{str}
use varar.Matcher.Searched.{searched, threw, Finds}
use varar.Matcher.Search.{find_hits, Parses, InSentence, find_hits_total}
use varar.Matcher.Sample.{step, engine, throwing, IsEngine-engine, registry}

abbrev hit : ℕ → ℕ → Hit
hit a b = record {
  expression = [];
  step_def = step;
  match_start = a;
  match_end = b;
  args = [];
  param_spans = [];
  param_inner_spans = [];
  formats = [];
}

-- The longest match at the leftmost place wins, and what overlaps it is dropped.
leftmost_longest :
    resolve_hits (hit 4 6 ∷ hit 0 3 ∷ hit 0 5 ∷ hit 5 7 ∷ []) ≡ ok (hit 0 5 ∷ hit 5 7 ∷ [])
unfolding resolve_hits
leftmost_longest = refl

resolve_hits_sound_example :
    IsDisjoint 0 (hit 0 5 ∷ hit 5 7 ∷ [])
    × All
        (λ s. Any (λ h. h ≡ s) (hit 4 6 ∷ hit 0 3 ∷ hit 0 5 ∷ hit 5 7 ∷ []))
        (hit 0 5 ∷ hit 5 7 ∷ [])
    × All (IsPicked (hit 0 5 ∷ hit 5 7 ∷ [])) (hit 4 6 ∷ hit 0 3 ∷ hit 0 5 ∷ hit 5 7 ∷ [])
resolve_hits_sound_example =
    resolve_hits_sound (hit 4 6 ∷ hit 0 3 ∷ hit 0 5 ∷ hit 5 7 ∷ []) (hit 0 5 ∷ hit 5 7 ∷ [])
      leftmost_longest

resolve_hits-ok_iff_example :
    ((steps : List Hit) × (resolve_hits (hit 0 3 ∷ hit 0 3 ∷ []) ≡ ok steps))
    ↔ HasDistinctRanges (hit 0 3 ∷ hit 0 3 ∷ [])
resolve_hits-ok_iff_example = resolve_hits-ok_iff (hit 0 3 ∷ hit 0 3 ∷ [])

find_hits_total_example :
    Finds
      (¬ Parses engine)
      (All (InSentence (1 ∷ 2 ∷ 3 ∷ [])))
      (find_hits engine registry (1 ∷ 2 ∷ 3 ∷ []))
find_hits_total_example = find_hits_total engine registry IsEngine-engine (1 ∷ 2 ∷ 3 ∷ [])

find_hits_runs :
    find_hits engine registry (1 ∷ 2 ∷ 3 ∷ [])
    ≡ searched (
        record (hit 0 2) {
          args = str (1 ∷ 2 ∷ []) ∷ [];
          param_spans = record { start = 0; end = 2 } ∷ [];
          param_inner_spans = record { start = 0; end = 2 } ∷ [];
          formats = none ∷ [];
        }
        ∷ [])
unfolding find_hits
find_hits_runs = refl

-- The error of a `parse` leaves the search.
find_hits_throws : find_hits throwing registry (1 ∷ 2 ∷ 3 ∷ []) ≡ threw
unfolding find_hits
find_hits_throws = refl
