-- ===== src/Plan/Groups.antt =====
-- Which candidates form which example, without references: a description, and the loop of phase 2
-- over such candidates.
pub mod Open
pub mod Described
pub mod Documents
use varar.Base.{
  ℕ, Bool, true, false, not, ◌&&◌, ◌||◌, List, [], ◌∷◌, ◌++◌, map, append-nil, append_assoc, Option,
  none, some, ◌≡◌, refl, ap, sym, subst, ◌∙◌, Bool-cases, inl, inr, ◌⊎◌, if◌then◌else◌, arith,
}
use varar.Text.{Text}
use varar.Plan.{PlannedStep, PlannedExample}
use varar.Ast.{Example, Doc}
use varar.Plan.Headers.{Bound, row_example}
use varar.Unicode.{Unicode}
use varar.Registry.{Registry}
use varar.Matcher.Search.{Engine}
use varar.Reference.Sections.{OathWorkspace}
use varar.Plan.Planned.{Planned, planned, pure, emit, ◌>>=◌}
use varar.Plan.Documents.{group_candidate, group_all}
use varar.Plan.Candidates.{StepsUnit, CandidateUnit, header_bound, steps}
use varar.Plan.Merging.{
  MergedExample, Grouping, start_merged, merge_into, finish_merged, flush, group_steps, group_unit,
  group_rows, no_examples,
}

-- a candidate that is no reference: the examples of a header-bound table, or a paragraph
pub data Part : Type 0 where
  rows : Example → Bound → Part
  paragraph : StepsUnit → Part

-- the examples of a table, or a first paragraph with those that go on with its example
pub data Group : Type 0 where
  table : Example → Bound → Group
  run : StepsUnit → List StepsUnit → Group

-- The next part goes on with the example that is open: it has steps, and no delimiter before it.
abbrev pub goes_on : List Part → Bool
goes_on [] = false
goes_on (rows ex bound ∷ parts) = false
goes_on (paragraph u ∷ parts) = u.matched && not u.preceded_by_delimiter

abbrev pub in_front : StepsUnit → List Group → List Group
in_front u (run v units ∷ groups) = run u (v ∷ units) ∷ groups
in_front u groups = run u [] ∷ groups

-- A paragraph without steps belongs to no group.
abbrev pub begun : StepsUnit → Bool → List Group → List Group
begun u goes groups = if goes then in_front u groups else run u [] ∷ groups

abbrev pub groups_of : List Part → List Group
groups_of [] = []
groups_of (rows ex bound ∷ parts) = table ex bound ∷ groups_of parts
groups_of (paragraph u ∷ parts) =
    if not u.matched then groups_of parts else begun u (goes_on parts) (groups_of parts)

abbrev pub merge_all : MergedExample → List StepsUnit → MergedExample
merge_all merged [] = merged
merge_all merged (u ∷ units) = merge_all (merge_into merged u false) units

-- `plan.ts` makes one example of each row of a header-bound table.
abbrev pub bound_examples : Example → Bound → List PlannedExample
bound_examples ex bound = map (row_example ex bound) bound.table.rows

module _ (source : Text) where
  -- the examples of the groups, the paragraphs of a run merged one by one
  abbrev pub merged_examples : List Group → List PlannedExample
  merged_examples [] = []
  merged_examples (table ex bound ∷ groups) = bound_examples ex bound ++ merged_examples groups
  merged_examples (run u units ∷ groups) =
      finish_merged source (merge_all (start_merged u) units) ∷ merged_examples groups

  -- the loop over the parts
  unfoldable pub group_part : Part → Grouping → Grouping
  unfolding group_rows group_unit
  group_part (rows ex bound) g = group_rows source (bound_examples ex bound) g
  group_part (paragraph u) g = group_unit source u g

  unfoldable pub group_parts : List Part → Grouping → List PlannedExample
  unfolding group_part flush
  group_parts [] g = (flush source g).examples
  group_parts (p ∷ parts) g = group_parts parts (group_part p g)
