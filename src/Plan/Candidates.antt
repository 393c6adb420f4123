-- ===== src/Plan/Candidates.antt =====
-- `planCandidate`: one candidate paragraph with its tables and fences, planned in isolation.
use varar.Base.{
  Bool, true, false, not, ◌||◌, List, [], ◌∷◌, ◌++◌, map, Option, none, some, if◌then◌else◌, length,
  ◌==◌,
}
use varar.Text.{Text, text_eq, codes, slice, trim}
use varar.Span.{Span}
use varar.Ast.{Block, table, fence, Table, Fence, Example, Doc}
use varar.Unicode.{Unicode}
use varar.Registry.{Registry}
use varar.Matcher.{Hit, ParamSpan, AmbiguityCollision}
use varar.Matcher.Search.{Engine}
use varar.Diagnostics.{Candidate, ambiguous_match_diagnostic, error_fence_diagnostic}
use varar.Reference.Links.{Reference}
use varar.Reference.Sections.{reference_in}
use varar.Plan.{DocString, PlannedStep, PlannedExample}
use varar.Plan.Names.{derive_example_name}
use varar.Plan.Planned.{Planned, pure, report, lifted, from_search, each, ◌>>=◌, ◌>>◌}
use varar.Plan.Lifting.{lift_span, block_text}
use varar.Plan.Blocks.{plan_block}
use varar.Plan.Headers.{Entry, Bound, row_example, detect_header_bound}

-- a `CandidateUnit` of kind 'steps'
pub record StepsUnit : Type 0 where
  pub matched : Bool
  pub preceded_by_delimiter : Bool
  pub name : Text
  pub scope_stack : List Text
  pub span : Span
  pub steps : List PlannedStep
  pub expects_failure : Bool
  pub expected_error_message : Option Text

-- a `CandidateUnit` of kind 'reference'
pub record ReferenceUnit : Type 0 where
  pub reference : Reference
  pub preceded_by_delimiter : Bool
  pub scope_stack : List Text
  pub span : Span

pub data CandidateUnit : Type 0 where
  header_bound : List PlannedExample → CandidateUnit
  reference : ReferenceUnit → CandidateUnit
  steps : StepsUnit → CandidateUnit

abbrev candidate_of : Hit → Candidate
candidate_of h = record {
  expression = h.expression;
  source_file = h.step_def.expression_source_file;
  source_line = h.step_def.expression_source_line;
}

module _ (source : Text) (block : Block) (text : Text) where
  abbrev pub lift_param : ParamSpan → Planned Span
  lift_param p = lifted (lift_span source block p.start p.end)

  -- the diagnostic of one collision
  unfoldable pub report_collision : AmbiguityCollision → Planned (Unit {0})
  unfolding lift_span ambiguous_match_diagnostic
  report_collision c = do
    span ← lifted (lift_span source block c.match_start c.match_end)
    report (
        ambiguous_match_diagnostic (slice text c.match_start c.match_end) span
          (map candidate_of c.candidates))

  -- the step of one hit
  unfoldable pub step_of : Hit → Planned PlannedStep
  unfolding lift_span each
  step_of h = do
    match_span ← lifted (lift_span source block h.match_start h.match_end)
    param_spans ← each lift_param h.param_spans
    param_inner_spans ← each lift_param h.param_inner_spans
    pure (record {
      text = slice text h.match_start h.match_end;
      match_span = match_span;
      doc_path = none;
      param_spans = param_spans;
      param_texts = map (λ p. slice text p.start p.end) h.param_spans;
      param_inner_spans = param_inner_spans;
      step_def = h.step_def;
      args = h.args;
      formats = h.formats;
      data_table = none;
      doc_string = none;
    })

  -- what a block's hits add to `stepsByBlock`, where no block so far was ambiguous
  unfoldable pub steps_of : Bool → List Hit → Planned (List PlannedStep)
  unfolding step_of each
  steps_of true hits = pure []
  steps_of false hits = each step_of hits

-- `attachments.get(idx)`, from the block behind
pub record Attachment : Type 0 where
  pub data_table : Option Table
  pub doc_string : Option DocString

unfoldable pub is_error : Fence → Bool
unfolding text_eq
is_error f = text_eq f.info (codes "error")

unfoldable pub attachment_of : List Entry → Option Attachment
unfolding is_error
attachment_of [] = none
attachment_of (here ∷ entries) = elim here.block [
  | table t ↦ some (record { data_table = some t; doc_string = none })
  | fence f ↦
      if is_error f
      then none
      else some (record {
        data_table = none;
        doc_string = some (record { content = f.body; content_type = f.info; span = f.body_span });
      })
  | other ↦ none
]

abbrev pub attach_to : PlannedStep → Attachment → PlannedStep
attach_to step a = record step { data_table = a.data_table; doc_string = a.doc_string }

-- the last step of a block takes the attachment
unfoldable pub attach_last : List PlannedStep → Option Attachment → List PlannedStep
attach_last own none = own
attach_last [] (some a) = []
attach_last (s ∷ []) (some a) = attach_to s a ∷ []
attach_last (s ∷ t ∷ own) (some a) = s ∷ attach_last (t ∷ own) (some a)

-- passes 2 and 3
unfoldable pub final_steps : List Entry → List PlannedStep
unfolding attachment_of attach_last
final_steps [] = []
final_steps (e ∷ entries) = attach_last e.steps (attachment_of entries) ++ final_steps entries

unfoldable pub error_fence : List Block → Option Fence
unfolding is_error
error_fence [] = none
error_fence (b ∷ body) = elim b [
  | fence f ↦ if is_error f then some f else error_fence body
  | other ↦ error_fence body
]

-- `errorFence.body.trim()`, where it is not empty
abbrev pub message_of : Option Fence → Option Text
message_of none = none
message_of (some f) = if length (trim f.body) == 0 then none else some (trim f.body)

abbrev pub is_present {ℓ} : {A : Type ℓ} → Option A → Bool
is_present none = false
is_present (some a) = true

-- the error fence of a candidate without runnable steps
unfoldable pub report_fence : Option Fence → List PlannedStep → Planned (Unit {0})
unfolding error_fence_diagnostic
report_fence none runnable = pure tt
report_fence (some f) [] = report (error_fence_diagnostic f.span)
report_fence (some f) (s ∷ runnable) = pure tt

-- behind the test for a header-bound table
unfoldable pub steps_unit : Example → Bool → List Entry → Planned CandidateUnit
unfolding report_fence final_steps error_fence derive_example_name
steps_unit ex had_ambiguous entries =
    let runnable = if had_ambiguous then [] else final_steps entries in
    let error = error_fence ex.body in
    do
      report_fence error runnable
      pure (
          steps (record {
            matched = not (length runnable == 0);
            preceded_by_delimiter = ex.preceded_by_delimiter;
            name = derive_example_name ex.body;
            scope_stack = ex.scope_stack;
            span = ex.span;
            steps = runnable;
            expects_failure = is_present error;
            expected_error_message = message_of error;
          }))

module _ (unicode : Unicode) (engine : Engine) (registry : Registry) where
  abbrev pub ambiguous_after : Bool → List AmbiguityCollision → Bool
  ambiguous_after had collisions = had || not (length collisions == 0)

  -- pass 1 over the blocks: whether one was ambiguous, and the steps of each block
  unfoldable pub plan_blocks : Text → Bool → List Block → Planned (Bool × List Entry)
  unfolding plan_block report_collision steps_of each
  plan_blocks source had [] = pure (had, [])
  plan_blocks source had (b ∷ body) = elim (block_text b) [
    | none ↦ do
      (had', entries) ← plan_blocks source had body
      pure (had', record { block = b; steps = [] } ∷ entries)
    | some (text, segment_map) ↦ do
      result ← from_search (plan_block engine registry text)
      let had_now = ambiguous_after had result.ambiguities
      _ ← each (report_collision source b text) result.ambiguities
      found ← steps_of source b text had_now result.steps
      (had', entries) ← plan_blocks source had_now body
      pure (had', record { block = b; steps = found } ∷ entries)
  ]

  -- `!hadAmbiguous ? detectHeaderBound(…) : null`
  unfoldable pub bound_in : Text → Bool → List Entry → Planned (Option Bound)
  unfolding detect_header_bound
  bound_in source true entries = pure none
  bound_in source false [] = pure none
  bound_in source false (e ∷ entries) = detect_header_bound unicode source e entries

  -- behind the test for a reference
  unfoldable pub plan_content : Example → Doc → Planned CandidateUnit
  unfolding plan_blocks bound_in row_example steps_unit
  plan_content ex doc = do
    (had_ambiguous, entries) ← plan_blocks doc.source false ex.body
    bound ← bound_in doc.source had_ambiguous entries
    elim bound [
      | some b ↦ pure (header_bound (map (row_example ex b) b.table.rows))
      | none ↦ steps_unit ex had_ambiguous entries
    ]

  unfoldable pub plan_candidate : Example → Doc → Planned CandidateUnit
  unfolding reference_in plan_content
  plan_candidate ex doc = elim (reference_in unicode doc.path ex) [
    | some r ↦ pure (
        reference (record {
          reference = r;
          preceded_by_delimiter = ex.preceded_by_delimiter;
          scope_stack = ex.scope_stack;
          span = ex.span;
        }))
    | none ↦ plan_content ex doc
  ]
