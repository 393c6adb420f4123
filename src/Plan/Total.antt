-- ===== src/Plan/Total.antt =====
-- Planning one candidate, where the blocks have segment maps and the searches in them end.
use varar.Base.{
  Bool, true, false, List, [], ◌∷◌, map, Option, none, some, ◌≡◌, All, Option-cases, inl, inr,
  if◌then◌else◌,
}
use varar.Text.{Text}
use varar.Text.Sets.{has}
use varar.Ast.{Block, Fence, Example, Doc}
use varar.Unicode.{Unicode}
use varar.Registry.{Registry}
use varar.Sentences.{split_sentences}
use varar.Matcher.Search.{Engine, IsEngine, Parses}
use varar.Matcher.Searched.{Searched, searched, threw, out_of_fuel, Finds}
use varar.Reference.Links.{Reference}
use varar.Reference.Sections.{reference_in, section_key}
use varar.Plan.{PlannedStep}
use varar.Plan.Planned.{planned, from_search, each}
use varar.Plan.Lifting.{block_text}
use varar.Plan.Blocks.{BlockPlan, plan_block}
use varar.Plan.Ranges.{IsPlaced, plan_block-IsPlaced}
use varar.Plan.Headers.{Entry, Bound, row_example}
use varar.Plan.Candidates.{
  CandidateUnit, header_bound, reference, steps, report_collision, steps_of, report_fence,
  error_fence, final_steps, steps_unit, ambiguous_after, plan_blocks, bound_in, plan_content,
  plan_candidate,
}
use varar.Plan.Returning.{Returns, Ends, >>=-Returns, each-Returns, All-of}
use varar.Plan.Segments.{
  HasSegments, HaveSegments, report_collision-Ends, steps_of-Ends, detect_header_bound-Ends,
}

-- the key of a reference among the units is one of the keys
abbrev pub KeyIn : List Text → CandidateUnit → Type 0
KeyIn keys (header_bound rows) = Unit
KeyIn keys (steps u) = Unit
KeyIn keys (reference u) = has (section_key u.reference.path u.reference.slug) keys ≡ true

-- The search in a block's text ends, and no `parse` throws.
abbrev pub Searches : Engine → Registry → Type 0
Searches engine registry = (text : Text) → Ends (from_search (plan_block engine registry text))

pub Parses-Searches :
    (engine : Engine) (registry : Registry)
    → IsEngine engine
    → Parses engine
    → Searches engine registry
Parses-Searches engine registry law parses text =
    ends (plan_block engine registry text) (plan_block-IsPlaced engine registry law text)
  where
    ends :
        (m : Searched BlockPlan)
        → Finds (¬ Parses engine) (IsPlaced 0 (split_sentences text)) m
        → Ends (from_search m)
    ends (searched p) f = tt
    ends threw f = f parses
    ends out_of_fuel f = f

module _ (unicode : Unicode) (engine : Engine) (registry : Registry) where
  plan_blocks-HaveSegments :
      Searches engine registry
      → (source : Text) (had : Bool) (body : List Block) → All HasSegments body
      → Returns (λ r. HaveSegments r.1) (plan_blocks unicode engine registry source had body)
  unfolding plan_blocks
  plan_blocks-HaveSegments searches source had [] h = tt
  plan_blocks-HaveSegments searches source had (b ∷ body) (h, hs) =
      elim (Option-cases (block_text b)) [
        | inl e ↦
            rw (plan_blocks, e)
              (>>=-Returns (λ r. HaveSegments r.1) (λ r. HaveSegments r.1)
                (plan_blocks unicode engine registry source had body) _
                (plan_blocks-HaveSegments searches source had body hs) (λ r s. (h, s)))
        | inr ((text, m), e) ↦
            rw (plan_blocks, e)
              (>>=-Returns (λ _. Unit) (λ r. HaveSegments r.1)
                (from_search (plan_block engine registry text)) _ (searches text)
                (λ found o.
                  let now = ambiguous_after unicode engine registry had found.ambiguities in
                  >>=-Returns (All (λ _. Unit)) (λ r. HaveSegments r.1)
                    (each (report_collision source b text) found.ambiguities) _
                    (each-Returns (λ _. Unit) (report_collision source b text) found.ambiguities
                      (All-of _ found.ambiguities (report_collision-Ends source b text h)))
                    (λ _ u.
                      >>=-Returns (λ _. Unit) (λ r. HaveSegments r.1)
                        (steps_of source b text now found.steps) _
                        (steps_of-Ends source b text h now found.steps)
                        (λ own v.
                          >>=-Returns (λ r. HaveSegments r.1) (λ r. HaveSegments r.1)
                            (plan_blocks unicode engine registry source now body) _
                            (plan_blocks-HaveSegments searches source now body hs)
                            (λ r s. (h, s))))))
      ]

  bound_in-Ends :
      (source : Text) (had : Bool) (entries : List Entry)
      → HaveSegments entries
      → Ends (bound_in unicode engine registry source had entries)
  unfolding bound_in
  bound_in-Ends source true entries h = tt
  bound_in-Ends source false [] h = tt
  bound_in-Ends source false (e ∷ entries) (h, hs) =
      detect_header_bound-Ends unicode source e entries h hs

  report_fence-Ends :
      (f : Option Fence) (runnable : List PlannedStep) → Ends (report_fence f runnable)
  unfolding report_fence
  report_fence-Ends none runnable = tt
  report_fence-Ends (some f) [] = tt
  report_fence-Ends (some f) (s ∷ runnable) = tt

  module _ (keys : List Text) where
    steps_unit-KeyIn :
        (ex : Example) (had : Bool) (entries : List Entry)
        → Returns (KeyIn keys) (steps_unit ex had entries)
    unfolding steps_unit
    steps_unit-KeyIn ex had entries =
        >>=-Returns (λ _. Unit) (KeyIn keys)
          (report_fence (error_fence ex.body) (if had then [] else final_steps entries)) _
          (report_fence-Ends (error_fence ex.body) _) (λ _ u. tt)

    bound_or_steps :
        (ex : Example) (had : Bool) (entries : List Entry) (b : Option Bound)
        → Returns (KeyIn keys) (elim b [
          | some b' ↦ planned (header_bound (map (row_example ex b') b'.table.rows)) []
          | none ↦ steps_unit ex had entries
        ])
    bound_or_steps ex had entries none = steps_unit-KeyIn ex had entries
    bound_or_steps ex had entries (some b) = tt

    plan_content-KeyIn :
        Searches engine registry
        → (ex : Example) (doc : Doc) → All HasSegments ex.body
        → Returns (KeyIn keys) (plan_content unicode engine registry ex doc)
    unfolding plan_content
    plan_content-KeyIn searches ex doc h =
        >>=-Returns (λ r. HaveSegments r.1) (KeyIn keys)
          (plan_blocks unicode engine registry doc.source false ex.body) _
          (plan_blocks-HaveSegments searches doc.source false ex.body h)
          (λ r s.
            >>=-Returns (λ _. Unit) (KeyIn keys)
              (bound_in unicode engine registry doc.source r.0 r.1) _
              (bound_in-Ends doc.source r.0 r.1 s) (λ b u. bound_or_steps ex r.0 r.1 b))

    -- The blocks of a candidate have segment maps, and if it is a reference, its key is known.
    abbrev pub IsKnown : Text → Example → Type 0
    IsKnown path ex =
        All HasSegments ex.body
        × ((r : Reference)
            → reference_in unicode path ex ≡ some r
            → has (section_key r.path r.slug) keys ≡ true)

    abbrev pub AreKnown : Doc → Type 0
    AreKnown doc = All (IsKnown doc.path) doc.examples

    pub plan_candidate-KeyIn :
        Searches engine registry
        → (ex : Example) (doc : Doc) → IsKnown doc.path ex
        → Returns (KeyIn keys) (plan_candidate unicode engine registry ex doc)
    unfolding plan_candidate
    plan_candidate-KeyIn searches ex doc (h, k) =
        elim (Option-cases (reference_in unicode doc.path ex)) [
          | inl e ↦ rw (plan_candidate, e) (plan_content-KeyIn searches ex doc h)
          | inr (r, e) ↦ rw (plan_candidate, e) (k r e)
        ]
