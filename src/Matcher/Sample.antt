-- ===== src/Matcher/Sample.antt =====
-- An engine with one expression that behaves as documented, for the runs of the code.
use varar.Base.{
  ℕ, ◌+◌, ◌≤◌, [], ◌∷◌, ◌≡◌, ◌≢◌, subst, Option, none, some, arith, ◌==◌, if◌then◌else◌, length,
}
use varar.Text.{Text}
use varar.Value.{str}
use varar.Registry.{StepRegistration, Registry}
use varar.Matcher.Search.{RegexMatch, Argument, Engine, IsEngine, Parses}

abbrev pub step : StepRegistration
step = record {
  expression = [];
  expression_source_file = [];
  expression_source_line = 1;
  handler = 0;
  compiled = 0;
  kind = none;
}

-- an engine whose one expression matches the first two characters
abbrev two_first : ℕ → Text → ℕ → Option RegexMatch
two_first c (a ∷ b ∷ s) i = if i == 0 then some (record { index = 0; text = a ∷ b ∷ [] }) else none
two_first c s i = none

-- the matched text as the one argument
abbrev whole : Text → Argument
whole t = record {
  value = some (str t);
  type_name = [];
  group = record { span = some (record { start = 0; end = length t }); children = [] };
}

abbrev pub engine : Engine
engine = record { exec = two_first; match = λ c t. some (whole t ∷ []) }

from_first : (c : ℕ) (s : Text) (i : ℕ) (m : RegexMatch) → two_first c s i ≡ some m → i ≤ m.index
from_first c (a ∷ b ∷ s) i m e = ground arith
from_first c (a ∷ []) i m e = cc
from_first c [] i m e = cc

within :
    (c : ℕ) (s : Text) (i : ℕ) (m : RegexMatch)
    → two_first c s i ≡ some m
    → m.index + length m.text ≤ length s
within c (a ∷ b ∷ s) i m e = ground arith
within c (a ∷ []) i m e = cc
within c [] i m e = cc

pub IsEngine-engine : IsEngine engine
IsEngine-engine = record { from_last_index = from_first; in_text = within }

abbrev pub registry : Registry
registry = record { steps = step ∷ []; formats = [] }

pub Parses-engine : Parses engine
Parses-engine c s (a ∷ []) e =
    let same : whole s ≡ a = cc in (subst (λ x. x.value ≢ none) same (λ n. cc), tt)
Parses-engine c s [] e = tt
Parses-engine c s (a ∷ b ∷ args) e = absurd (ground arith)

-- The same expression, with a `parse` that throws.
abbrev pub throwing : Engine
throwing = record { exec = two_first; match = λ c t. some (record (whole t) { value = none } ∷ []) }
