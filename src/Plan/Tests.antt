-- ===== src/Plan/Tests.antt =====
-- Runs of plan.ts, and its theorems at concrete inputs.
use varar.Base.{ℕ, false, List, ◌++◌, [], ◌∷◌, map, Option, none, some, ◌≡◌, refl}
use varar.Text.{Text, codes, newline, join_on}
use varar.Ast.{Example, Doc}
use varar.Unicode.{Unicode}
use varar.Sentences.{split_sentences}
use varar.Scanner.Scan.{parse}
use varar.Matcher.Search.{Parses}
use varar.Matcher.Searched.{Searched, searched, threw, out_of_fuel, Finds}
use varar.Matcher.Sample.{engine, throwing, IsEngine-engine, registry}
use varar.Reference.Sections.{empty_workspace}
use varar.Plan.Planned.{Planned, planned, parse_threw, ◌>>=◌}
use varar.Plan.Headers.{Bound}
use varar.Plan.Candidates.{CandidateUnit, steps, plan_blocks, bound_in, plan_candidate}
use varar.Plan.Documents.{plan}
use varar.Plan.Blocks.{BlockPlan, plan_block}
use varar.Plan.Ranges.{IsPlaced, plan_block-IsPlaced}
use varar.Plan.Groups.{Part, rows, groups_of}
use varar.Plan.Groups
use varar.Plan.Groups.Described.{examples_of}

abbrev unicode : Unicode
unicode = record {
  to_lower = λ s. s;
  without_punctuation = λ s. s;
  word_behind = λ s i. false;
  word_ahead = λ s i. false;
}

abbrev starts_of : Searched BlockPlan → List ℕ
starts_of (searched p) = map (λ h. h.match_start) p.steps
starts_of threw = []
starts_of out_of_fuel = []

-- Every sentence has one match, of its first two characters.
two_steps : starts_of (plan_block engine registry (codes "Go. Run.")) ≡ 0 ∷ 4 ∷ []
unfolding plan_block
two_steps = refl

plan_block-IsPlaced_example :
    Finds
      (¬ Parses engine)
      (IsPlaced 0 (split_sentences (codes "Go. Run.")))
      (plan_block engine registry (codes "Go. Run."))
plan_block-IsPlaced_example = plan_block-IsPlaced engine registry IsEngine-engine (codes "Go. Run.")

-- a paragraph over a table with two rows, and two paragraphs that share an example
abbrev doc : Doc
doc = parse (codes "a.md") (
    join_on newline (
      codes "Go a."
      ∷ codes "| a |"
      ∷ codes "|---|"
      ∷ codes "| 1 |"
      ∷ codes "| 2 |"
      ∷ []
      ∷ codes "Run. Jump!"
      ∷ []
      ∷ codes "Stop."
      ∷ []))

-- The error of a `parse` leaves the planning.
plan_throws : plan unicode throwing registry empty_workspace doc ≡ parse_threw
unfolding plan parse join_on
plan_throws = refl

abbrev bound_of : Planned (Option Bound) → Option Bound
bound_of (planned b ds) = b
bound_of _ = none

unfoldable bound_at : Example → Option Bound
unfolding plan_blocks bound_in
bound_at ex = bound_of (
    plan_blocks unicode engine registry doc.source false ex.body >>= λ r.
    bound_in unicode engine registry doc.source r.0 r.1)

abbrev parts_of : Example → Planned CandidateUnit → List Part
parts_of ex (planned (steps u) ds) = Groups.paragraph u ∷ []
parts_of ex _ = table_at (bound_at ex)
  where
    table_at : Option Bound → List Part
    table_at none = []
    table_at (some b) = rows ex b ∷ []

unfoldable parts_from : List Example → List Part
unfolding plan_candidate bound_at
parts_from [] = []
parts_from (ex ∷ examples) =
    parts_of ex (plan_candidate unicode engine registry ex doc) ++ parts_from examples

abbrev parts : List Part
parts = parts_from doc.examples

-- Two rows, and an example with the three steps of two paragraphs.
three_examples :
    map {B = Text × List Text}
      (λ e. (e.name, map (λ s. s.text) e.steps))
      (examples_of doc.source (groups_of parts))
    ≡ (codes "1", codes "Go" ∷ [])
      ∷ (codes "2", codes "Go" ∷ [])
      ∷ (codes "Run. Jump", codes "Ru" ∷ codes "Ju" ∷ codes "St" ∷ [])
      ∷ []
unfolding parts_from parse join_on
three_examples = refl
