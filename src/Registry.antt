-- ===== src/Registry.antt =====
-- typescript/packages/core/src/registry.ts and step-role.ts: the step definitions.
-- The expression library (@cucumber/cucumber-expressions) is not modelled: a compiled expression is a
-- reference, and so are a handler and a display formatter, which are the author's code.
use varar.Base.{ℕ, List, [], ◌∷◌, ◌++◌, Option, none, some, if◌then◌else◌, length, ◌==◌}
use varar.Text.{Text, text_eq}

pub data StepKind : Type 0 where
  stimulus sensor : StepKind

pub record StepRegistration : Type 0 where
  pub expression : Text
  pub expression_source_file : Text
  pub expression_source_line : ℕ
  pub handler : ℕ
  pub compiled : ℕ
  pub kind : Option StepKind

pub record Registry : Type 0 where
  pub steps : List StepRegistration
  -- the display formatters by parameter type name
  pub formats : List (Text × ℕ)

-- `Omit<StepRegistration, 'compiled'>`
pub record StepInput : Type 0 where
  pub expression : Text
  pub expression_source_file : Text
  pub expression_source_line : ℕ
  pub handler : ℕ
  pub kind : Option StepKind

-- The error names both places; its wording is left out.
pub data Added : Type 0 where
  added : Registry → Added
  duplicate : StepRegistration → StepInput → Added

unfoldable pub find_expression : Text → List StepRegistration → Option StepRegistration
unfolding text_eq
find_expression e [] = none
find_expression e (s ∷ steps) = if text_eq s.expression e then some s else find_expression e steps

-- `inferStepRole`; only what comes after the step counts.
unfoldable pub infer_step_role : (before after : List StepKind) → StepKind
infer_step_role before after = if length after == 0 then sensor else stimulus

-- `compile` is the constructor of the expression library.
module _ (compile : Text → ℕ) where
  unfoldable pub add_step : Registry → StepInput → Added
  unfolding find_expression
  add_step registry input = elim (find_expression input.expression registry.steps) [
    | some other ↦ duplicate other input
    | none ↦ added (record registry {
      steps =
          registry.steps
          ++ record {
            expression = input.expression;
            expression_source_file = input.expression_source_file;
            expression_source_line = input.expression_source_line;
            handler = input.handler;
            compiled = compile input.expression;
            kind = input.kind;
          }
            ∷ [];
    })
  ]
