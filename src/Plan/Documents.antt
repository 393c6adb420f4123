-- ===== src/Plan/Documents.antt =====
-- `plan`: the execution plan of a document.
use varar.Base.{ℕ, suc, Bool, true, ◌||◌, List, [], ◌∷◌, ◌++◌, if◌then◌else◌, any, length}
use varar.Text.{Text}
use varar.Ast.{Example, Doc}
use varar.Unicode.{Unicode}
use varar.Registry.{Registry}
use varar.Matcher.Search.{Engine}
use varar.Reference.Links.{slugify}
use varar.Reference.Sections.{OathWorkspace, section_key, references, keys_of}
use varar.Text.Sets.{has}
use varar.Plan.{PlannedExample, ExecutionPlan}
use varar.Plan.Planned.{
  Planned, planned, empty_segment_map, parse_threw, exhausted, pure, each, ◌>>=◌,
}
use varar.Plan.Candidates.{CandidateUnit, header_bound, reference, steps, plan_candidate}
use varar.Plan.Splicing.{resolve_reference}
use varar.Plan.Merging.{Grouping, no_examples, flush, group_unit, group_rows, splice_all}

module _ (unicode : Unicode) (engine : Engine) (registry : Registry) (workspace : OathWorkspace)
    (doc : Doc) where
  -- a section that a reference consumes
  unfoldable pub is_consumed : Example → Bool
  unfolding slugify section_key has
  is_consumed ex =
      any (λ h. has (section_key doc.path (slugify unicode h)) workspace.referenced) ex.scope_stack
      || has (section_key doc.path []) workspace.referenced

  unfoldable pub standalone : List Example → List Example
  unfolding is_consumed
  standalone [] = []
  standalone (ex ∷ examples) =
      let rest = standalone examples in if is_consumed ex then rest else ex ∷ rest

  -- the keys of all references, in the document and in the workspace
  unfoldable pub workspace_keys : List (Text × Doc) → List Text
  unfolding references keys_of
  workspace_keys [] = []
  workspace_keys ((path, d) ∷ docs) = keys_of unicode (references unicode d) ++ workspace_keys docs

  unfoldable pub all_keys : List Text
  unfolding workspace_keys
  all_keys = keys_of unicode (references unicode doc) ++ workspace_keys workspace.docs

  -- No section is on the chain twice, so one more round than there are references is enough.
  abbrev pub fuel_for : ℕ
  fuel_for = suc (length all_keys)

  -- one round of phase 2
  unfoldable pub group_candidate : CandidateUnit → Grouping → Planned Grouping
  unfolding group_rows group_unit splice_all resolve_reference
  group_candidate (header_bound rows) g = pure (group_rows doc.source rows g)
  group_candidate (steps unit) g = pure (group_unit doc.source unit g)
  group_candidate (reference unit) g = do
    spliced ← resolve_reference unicode engine registry workspace fuel_for unit doc []
    pure (splice_all doc.source unit true spliced g)

  unfoldable pub group_all : List CandidateUnit → Grouping → Planned Grouping
  unfolding group_candidate flush
  group_all [] g = pure (flush doc.source g)
  group_all (u ∷ units) g = do g' ← group_candidate u g; group_all units g'

  -- both phases
  unfoldable pub plan_examples : Planned (List PlannedExample)
  unfolding each plan_candidate standalone group_all
  plan_examples = do
    units ← each (λ ex. plan_candidate unicode engine registry ex doc) (standalone doc.examples)
    g ← group_all units no_examples
    pure g.examples

  abbrev pub as_plan : Planned (List PlannedExample) → Planned ExecutionPlan
  as_plan (planned examples ds) =
      planned (record { doc = doc; examples = examples; diagnostics = ds }) ds
  as_plan empty_segment_map = empty_segment_map
  as_plan parse_threw = parse_threw
  as_plan exhausted = exhausted

  unfoldable pub plan : Planned ExecutionPlan
  unfolding plan_examples
  plan = as_plan plan_examples
