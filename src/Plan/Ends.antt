-- ===== src/Plan/Ends.antt =====
-- `plan`, from its candidates and references to the whole document.
use varar.Base.{
  true, List, [], ◌∷◌, ◌++◌, some, ◌≡◌, refl, ◌∙◌, All, All-map, Option-cases, Bool-cases, inl, inr,
  arith,
}
use varar.Text.{Text}
use varar.Text.Sets.{has, has-append}
use varar.Text.Laws.{text_eq_iff}
use varar.Ast.{Example, Doc}
use varar.Unicode.{Unicode}
use varar.Registry.{Registry}
use varar.Matcher.Search.{Engine, IsEngine, Parses}
use varar.Reference.Links.{Reference}
use varar.Reference.Sections.{
  OathWorkspace, reference_in, references_from, references, keys_of, section_key,
}
use varar.Plan.{ExecutionPlan, PlannedExample}
use varar.Plan.Planned.{Planned, planned, empty_segment_map, parse_threw, exhausted, each}
use varar.Plan.Candidates.{CandidateUnit, header_bound, reference, steps, plan_candidate}
use varar.Plan.Splicing.{resolve_reference}
use varar.Plan.Merging.{Grouping, no_examples}
use varar.Plan.Documents.{
  is_consumed, standalone, workspace_keys, all_keys, group_candidate, group_all, plan_examples,
  as_plan, plan, fuel_for,
}
use varar.Plan.Returning.{Ends, >>=-Returns, each-Returns}
use varar.Plan.Segments.{HasSegments}
use varar.Plan.Total.{KeyIn, IsKnown, AreKnown, Searches, Parses-Searches, plan_candidate-KeyIn}
use varar.Plan.Chains.{resolve_reference-Ends}

-- The blocks of a document have segment maps.
abbrev pub IsSegmented : Doc → Type 0
IsSegmented doc = All (λ ex. All HasSegments ex.body) doc.examples

module _ (unicode : Unicode) where
  -- The key of a candidate's reference is one of the keys.
  abbrev HasKeyIn : List Text → Text → Example → Type 0
  HasKeyIn keys path ex =
      (r : Reference)
      → reference_in unicode path ex ≡ some r
      → has (section_key r.path r.slug) keys ≡ true

  keys_behind :
      (path k : Text) (ex : Example) (examples : List Example)
      → has k (keys_of unicode (references_from unicode path examples)) ≡ true
      → has k (keys_of unicode (references_from unicode path (ex ∷ examples))) ≡ true
  unfolding references_from keys_of has
  keys_behind path k ex examples h = elim (Option-cases (reference_in unicode path ex)) [
    | inl e ↦ rw (references_from, e) h
    | inr (r, e) ↦ rw (references_from, e) (ground arith)
  ]

  keys_here :
      (path : Text) (ex : Example) (examples : List Example)
      → HasKeyIn (keys_of unicode (references_from unicode path (ex ∷ examples))) path ex
  unfolding references_from keys_of has
  keys_here path ex examples r e =
      let k = section_key r.path r.slug in rw (references_from, e) (ground (arith, text_eq_iff k k))

  keys_of-HasKeyIn :
      (path : Text) (examples : List Example)
      → All (HasKeyIn (keys_of unicode (references_from unicode path examples)) path) examples
  keys_of-HasKeyIn path [] = tt
  keys_of-HasKeyIn path (ex ∷ examples) = (
    keys_here path ex examples,
    All-map (λ c h r q. keys_behind path (section_key r.path r.slug) ex examples (h r q)) examples
        (keys_of-HasKeyIn path examples),
  )

  has-front : (k : Text) (a b : List Text) → has k a ≡ true → has k (a ++ b) ≡ true
  has-front k a b h = has-append k a b ∙ ground arith

  has-behind : (k : Text) (a b : List Text) → has k b ≡ true → has k (a ++ b) ≡ true
  has-behind k a b h = has-append k a b ∙ ground arith

  module _ (engine : Engine) (registry : Registry) where
    both :
        (keys : List Text) (path : Text) (examples : List Example)
        → All (λ ex. All HasSegments ex.body) examples
        → All (HasKeyIn keys path) examples
        → All (IsKnown unicode engine registry keys path) examples
    both keys path [] h k = tt
    both keys path (ex ∷ examples) (p, h) (q, k) = ((p, q), both keys path examples h k)

    AreKnown-references :
        (keys : List Text) (doc : Doc)
        → IsSegmented doc
        → ((k : Text) → has k (keys_of unicode (references unicode doc)) ≡ true → has k keys ≡ true)
        → AreKnown unicode engine registry keys doc
    unfolding references
    AreKnown-references keys doc h f = both keys doc.path doc.examples h (
        All-map (λ c g r q. f (section_key r.path r.slug) (g r q)) doc.examples
          (keys_of-HasKeyIn doc.path doc.examples))

    module _ (workspace : OathWorkspace) (doc : Doc) where
      docs-AreKnown :
          (keys : List Text) (docs : List (Text × Doc))
          → All (λ p. IsSegmented p.1) docs
          → ((k : Text)
              → has k (workspace_keys unicode engine registry workspace doc docs) ≡ true
              → has k keys ≡ true)
          → All (λ p. AreKnown unicode engine registry keys p.1) docs
      unfolding workspace_keys
      docs-AreKnown keys [] h f = tt
      docs-AreKnown keys ((path, d) ∷ docs) (p, h) f = (
        AreKnown-references keys d p (λ k q. f k (has-front k _ _ q)),
        docs-AreKnown keys docs h (λ k q. f k (has-behind k _ _ q)),
      )

      abbrev keys : List Text
      keys = all_keys unicode engine registry workspace doc

      standalone-All :
          (P : Example → Type 0) (examples : List Example)
          → All P examples
          → All P (standalone unicode engine registry workspace doc examples)
      unfolding standalone
      standalone-All P [] h = tt
      standalone-All P (ex ∷ examples) (p, h) =
          elim (Bool-cases (is_consumed unicode engine registry workspace doc ex)) [
            | inl e ↦ rw e (standalone-All P examples h)
            | inr e ↦ rw e (p, standalone-All P examples h)
          ]

      module _ (searches : Searches engine registry)
          (here : AreKnown unicode engine registry keys doc)
          (there : All (λ p. AreKnown unicode engine registry keys p.1) workspace.docs) where
        group_candidate-Ends :
            (u : CandidateUnit) (g : Grouping)
            → KeyIn keys u
            → Ends (group_candidate unicode engine registry workspace doc u g)
        unfolding group_candidate
        group_candidate-Ends (header_bound rows) g i = tt
        group_candidate-Ends (steps unit) g i = tt
        group_candidate-Ends (reference unit) g i =
            >>=-Returns (λ _. Unit) (λ _. Unit)
              (resolve_reference unicode engine registry workspace
                (fuel_for unicode engine registry workspace doc) unit doc [])
              _
              (resolve_reference-Ends unicode engine registry keys workspace there searches
                (fuel_for unicode engine registry workspace doc) unit doc [] tt tt (omega arith) i
                here)
              (λ s u. tt)

        group_all-Ends :
            (units : List CandidateUnit) (g : Grouping)
            → All (KeyIn keys) units
            → Ends (group_all unicode engine registry workspace doc units g)
        unfolding group_all
        group_all-Ends [] g h = tt
        group_all-Ends (u ∷ units) g (i, h) =
            >>=-Returns (λ _. Unit) (λ _. Unit)
              (group_candidate unicode engine registry workspace doc u g) _
              (group_candidate-Ends u g i) (λ g' v. group_all-Ends units g' h)

        plan_examples-Ends : Ends (plan_examples unicode engine registry workspace doc)
        unfolding plan_examples
        plan_examples-Ends =
            >>=-Returns (All (KeyIn keys)) (λ _. Unit)
              (each (λ ex. plan_candidate unicode engine registry ex doc)
                (standalone unicode engine registry workspace doc doc.examples))
              _
              (each-Returns (KeyIn keys) (λ ex. plan_candidate unicode engine registry ex doc) _
                (All-map
                  (λ ex k. plan_candidate-KeyIn unicode engine registry keys searches ex doc k) _
                  (standalone-All (IsKnown unicode engine registry keys doc.path) doc.examples
                    here)))
              (λ units h.
                >>=-Returns (λ _. Unit) (λ _. Unit)
                  (group_all unicode engine registry workspace doc units no_examples) _
                  (group_all-Ends units no_examples h) (λ g v. tt))

      as_plan_of :
          (m : Planned (List PlannedExample))
          → Ends m
          → (p : ExecutionPlan) × (as_plan unicode engine registry workspace doc m
              ≡ planned p p.diagnostics)
      as_plan_of (planned examples ds) h = (_, refl)
      as_plan_of empty_segment_map h = elim h [ ]
      as_plan_of parse_threw h = elim h [ ]
      as_plan_of exhausted h = elim h [ ]

      -- Planning returns a plan, with the diagnostics that were reported, where all blocks of the document
      -- and of the workspace have segment maps, the regular expression engine behaves as documented and
      -- no author's `parse` throws: however its references are nested, also in a cycle.
      pub plan_total :
          IsEngine engine
          → Parses engine
          → IsSegmented doc
          → All (λ p. IsSegmented p.1) workspace.docs
          → (p : ExecutionPlan) × (plan unicode engine registry workspace doc
              ≡ planned p p.diagnostics)
      unfolding plan all_keys
      plan_total law parses h hs =
          as_plan_of (plan_examples unicode engine registry workspace doc) (
            plan_examples-Ends (Parses-Searches engine registry law parses)
              (AreKnown-references keys doc h (λ k q. has-front k _ _ q))
              (docs-AreKnown keys workspace.docs hs (λ k q. has-behind k _ _ q)))
