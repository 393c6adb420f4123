-- ===== src/Plan/Splicing.antt =====
-- `resolveReference`: the units of the section that a reference names, also through further references.
use varar.Base.{
  ℕ, zero, suc, Bool, not, ◌&&◌, List, [], ◌∷◌, ◌++◌, map, Option, none, some, if◌then◌else◌,
  length, ◌==◌, ltb,
}
use varar.Text.{Text, text_eq}
use varar.Ast.{Heading, Example, Doc}
use varar.Unicode.{Unicode}
use varar.Registry.{Registry}
use varar.Matcher.Search.{Engine}
use varar.Diagnostics.{
  Diagnostic, cycle_diagnostic, not_found_diagnostic, anchor_diagnostic, empty_diagnostic,
}
use varar.Reference.Links.{Reference, slugify}
use varar.Reference.Sections.{OathWorkspace, doc_at, section_key, section_candidates}
use varar.Text.Sets.{has}
use varar.Plan.{PlannedStep}
use varar.Plan.Planned.{Planned, planned, exhausted, pure, ◌>>=◌}
use varar.Plan.Candidates.{
  StepsUnit, ReferenceUnit, CandidateUnit, header_bound, reference, steps, plan_candidate,
}

abbrev in_doc : Text → PlannedStep → PlannedStep
in_doc path step = record step { doc_path = some path }

-- `tagWithDoc`
unfoldable pub tag_with_doc : StepsUnit → (doc_path host_path : Text) → StepsUnit
unfolding text_eq
tag_with_doc unit doc_path host_path =
    if text_eq doc_path host_path
    then unit
    else record unit { steps = map (in_doc doc_path) unit.steps }

-- What one candidate of the section adds. A header-bound table gives one example for each row, which
-- a list of steps cannot express.
unfoldable pub units_of :
    (ReferenceUnit → Planned (List StepsUnit))
    → (target host : Text) → CandidateUnit
    → Planned (List StepsUnit)
unfolding tag_with_doc
units_of resolve target host (reference r) = resolve r
units_of resolve target host (header_bound rows) = pure []
units_of resolve target host (steps s) =
    pure (if not s.matched then [] else tag_with_doc s target host ∷ [])

-- the candidates of the section, with the function that resolves a reference among them
unfoldable pub splice_section :
    (Example → Planned CandidateUnit)
    → (ReferenceUnit → Planned (List StepsUnit))
    → (target host : Text) → List Example
    → Planned (List StepsUnit)
unfolding units_of
splice_section plan_one resolve target host [] = pure []
splice_section plan_one resolve target host (c ∷ candidates) = do
  unit ← plan_one c
  found ← units_of resolve target host unit
  rest ← splice_section plan_one resolve target host candidates
  pure (found ++ rest)

-- a diagnostic, and no unit
abbrev pub refuse : Diagnostic → Planned (List StepsUnit)
refuse d = planned [] (d ∷ [])

-- the reference names a section without steps
unfoldable pub report_empty : Reference → ReferenceUnit → List StepsUnit → Planned (List StepsUnit)
unfolding empty_diagnostic
report_empty r unit [] = refuse (empty_diagnostic r.text r.path r.slug unit.span)
report_empty r unit (s ∷ found) = pure (s ∷ found)

module _ (unicode : Unicode) (engine : Engine) (registry : Registry)
    (workspace : OathWorkspace) where
  unfoldable pub target_of : Reference → Doc → Option Doc
  unfolding text_eq doc_at
  target_of r origin =
      if text_eq r.path origin.path then some origin else doc_at r.path workspace.docs

  -- the lines of the headings with the slug
  unfoldable pub named_lines : Text → List Heading → List ℕ
  unfolding slugify text_eq
  named_lines slug [] = []
  named_lines slug (h ∷ headings) =
      let rest = named_lines slug headings in
      if text_eq (slugify unicode h.text) slug then h.span.start_line ∷ rest else rest

  abbrev pub is_ambiguous : Reference → Doc → Bool
  is_ambiguous r target =
      not (length r.slug == 0) && ltb 1 (length (named_lines r.slug target.headings))

  -- the section of the target that the reference names
  unfoldable pub resolve_section :
      (ReferenceUnit → Doc → List Text → Planned (List StepsUnit))
      → ReferenceUnit
      → Doc
      → List Text
      → Doc
      → Planned (List StepsUnit)
  unfolding splice_section section_candidates plan_candidate report_empty
  resolve_section again unit origin chain target = do
    found ←
        splice_section (λ c. plan_candidate unicode engine registry c target)
          (λ u. again u target chain) target.path origin.path
          (section_candidates unicode target unit.reference.slug)
    report_empty unit.reference unit found

  unfoldable pub resolve_in :
      (ReferenceUnit → Doc → List Text → Planned (List StepsUnit))
      → ReferenceUnit
      → Doc
      → List Text
      → Option Doc
      → Planned (List StepsUnit)
  unfolding named_lines resolve_section not_found_diagnostic anchor_diagnostic
  resolve_in again unit origin chain none =
      refuse (not_found_diagnostic unit.reference.text unit.reference.path unit.span)
  resolve_in again unit origin chain (some target) =
      let r = unit.reference in
      if is_ambiguous r target
      then refuse
          (anchor_diagnostic r.text r.path r.slug (named_lines r.slug target.headings) unit.span)
      else resolve_section again unit origin chain target

  -- `chain` holds the sections that are being resolved.
  unfoldable pub resolve_reference :
      (fuel : ℕ) → ReferenceUnit → Doc → (chain : List Text) → Planned (List StepsUnit)
  unfolding section_key resolve_in target_of has cycle_diagnostic
  resolve_reference zero unit origin chain = exhausted
  resolve_reference (suc fuel) unit origin chain =
      let key = section_key unit.reference.path unit.reference.slug in
      let further =
        resolve_in (resolve_reference fuel) unit origin (chain ++ key ∷ [])
          (target_of unit.reference origin) in
      if has key chain then refuse (cycle_diagnostic (chain ++ key ∷ []) unit.span) else further
