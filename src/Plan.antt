-- ===== src/Plan.antt =====
-- typescript/packages/core/src/plan.ts: the types of an execution plan.
pub mod Names
pub mod Planned
pub mod Lifting
pub mod Blocks
pub mod Headers
pub mod Candidates
pub mod Merging
pub mod Splicing
pub mod Documents
pub mod Returning
pub mod Segments
pub mod Total
pub mod Chains
pub mod Ends
pub mod Groups
pub mod Ranges
mod Tests
use varar.Base.{ℕ, Bool, List, Option}
use varar.Text.{Text}
use varar.Span.{Span}
use varar.Ast.{Table, Doc}
use varar.Value.{Value}
use varar.Registry.{StepRegistration}
use varar.Cells.{RowCheck}
use varar.Diagnostics.{Diagnostic}

pub record HeaderBinding : Type 0 where
  pub match_span : Span
  pub param_spans : List Span
  pub header_cell_spans : List Span
  pub step_def : StepRegistration

pub record DocString : Type 0 where
  pub content : Text
  pub content_type : Text
  pub span : Span

pub record PlannedStep : Type 0 where
  pub text : Text
  pub match_span : Span
  pub doc_path : Option Text
  pub param_spans : List Span
  pub param_texts : List Text
  pub param_inner_spans : List Span
  pub step_def : StepRegistration
  pub args : List Value
  pub formats : List (Option ℕ)
  pub data_table : Option Table
  pub doc_string : Option DocString

-- `expects_failure` is whether `expectedOutcome` is 'fail'.
pub record PlannedExample : Type 0 where
  pub name : Text
  pub scope_stack : List Text
  pub span : Span
  pub steps : List PlannedStep
  pub header_binding : Option HeaderBinding
  pub row_checks : Option (List RowCheck)
  pub expects_failure : Bool
  pub expected_error_message : Option Text

pub record ExecutionPlan : Type 0 where
  pub doc : Doc
  pub examples : List PlannedExample
  pub diagnostics : List Diagnostic
