-- ===== src/Plan/Groups/Documents.antt =====
-- The plan of a document without references.
use varar.Base.{List}
use varar.Ast.{Doc}
use varar.Unicode.{Unicode}
use varar.Registry.{Registry}
use varar.Matcher.Search.{Engine}
use varar.Reference.Sections.{OathWorkspace}
use varar.Plan.{PlannedExample}
use varar.Plan.Planned.{Planned, pure, ◌>>=◌}
use varar.Plan.Documents.{group_all}
use varar.Plan.Candidates.{CandidateUnit, header_bound, steps}
use varar.Plan.Merging.{no_examples}
use varar.Plan.Groups.{Part, rows, paragraph, bound_examples}

-- the part as what `planCandidate` returns
abbrev pub unit_of : Part → CandidateUnit
unit_of (rows ex bound) = header_bound (bound_examples ex bound)
unit_of (paragraph u) = steps u

module _ (unicode : Unicode) (engine : Engine) (registry : Registry) (workspace : OathWorkspace)
    (doc : Doc) where
  abbrev pub grouped : List CandidateUnit → Planned (List PlannedExample)
  grouped units =
      group_all unicode engine registry workspace doc units no_examples >>= λ g. pure g.examples
