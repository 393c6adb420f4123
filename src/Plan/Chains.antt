-- ===== src/Plan/Chains.antt =====
-- The recursion over references, where the searches in blocks end.
use varar.Base.{
  ℕ, zero, suc, ◌+◌, ◌<◌, Bool, true, false, List, [], ◌∷◌, ◌++◌, some, ◌≡◌, subst, All, All-append,
  Option-cases, Bool-cases, inl, inr, ◌⊎◌, if◌then◌else◌, length, length-append, ◌==◌, arith,
}
use varar.Text.{Text, text_eq}
use varar.Text.Sets.{has, IsTokenSet, IsTokenSet-append, length-le-All}
use varar.Ast.{Example, Doc}
use varar.Unicode.{Unicode}
use varar.Registry.{Registry}
use varar.Matcher.Search.{Engine}
use varar.Diagnostics.{Diagnostic}
use varar.Reference.Links.{Reference}
use varar.Reference.Sections.{
  OathWorkspace, section_key, doc_at, with_slug, in_section, section_candidates,
}
use varar.Plan.Planned.{Planned}
use varar.Plan.Candidates.{
  CandidateUnit, ReferenceUnit, StepsUnit, header_bound, reference, steps, plan_candidate,
}
use varar.Plan.Splicing.{
  splice_section, units_of, report_empty, refuse, target_of, resolve_section, resolve_in,
  resolve_reference, is_ambiguous,
}
use varar.Plan.Returning.{Ends, >>=-Returns}
use varar.Plan.Total.{KeyIn, IsKnown, AreKnown, Searches, plan_candidate-KeyIn}

module _ (unicode : Unicode) (engine : Engine) (registry : Registry) (keys : List Text) where
  with_slug-All :
      (P : Example → Type 0) (slug : Text) (examples : List Example)
      → All P examples
      → All P (with_slug unicode slug examples)
  unfolding with_slug
  with_slug-All P slug [] h = tt
  with_slug-All P slug (ex ∷ examples) (p, h) =
      elim (Bool-cases (in_section unicode slug ex.scope_stack)) [
        | inl e ↦ rw e (p, with_slug-All P slug examples h)
        | inr e ↦ rw e (with_slug-All P slug examples h)
      ]

  section_candidates-All :
      (P : Example → Type 0) (doc : Doc) (slug : Text)
      → All P doc.examples
      → All P (section_candidates unicode doc slug)
  unfolding section_candidates
  section_candidates-All P doc slug h = elim (Bool-cases (length slug == 0)) [
    | inl e ↦ rw e h
    | inr e ↦ rw e (with_slug-All P slug doc.examples h)
  ]

  units_of-Ends :
      (again : ReferenceUnit → Planned (List StepsUnit)) (target host : Text) (unit : CandidateUnit)
      → KeyIn keys unit
      → ((u : ReferenceUnit) → KeyIn keys (reference u) → Ends (again u))
      → Ends (units_of again target host unit)
  unfolding units_of
  units_of-Ends again target host (header_bound rows) i h = tt
  units_of-Ends again target host (steps s) i h = tt
  units_of-Ends again target host (reference r) i h = h r i

  splice_section-Ends :
      Searches engine registry
      → (again : ReferenceUnit → Planned (List StepsUnit)) (target : Doc) (host : Text)
        (candidates : List Example)
      → ((u : ReferenceUnit) → KeyIn keys (reference u) → Ends (again u))
      → All (IsKnown unicode engine registry keys target.path) candidates
      → Ends (
          splice_section
            (λ c. plan_candidate unicode engine registry c target)
            again
            target.path
            host
            candidates)
  unfolding splice_section
  splice_section-Ends searches again target host [] h ks = tt
  splice_section-Ends searches again target host (c ∷ candidates) h (k, ks) =
      >>=-Returns (KeyIn keys) (λ _. Unit) (plan_candidate unicode engine registry c target) _
        (plan_candidate-KeyIn unicode engine registry keys searches c target k)
        (λ unit i.
          >>=-Returns (λ _. Unit) (λ _. Unit) (units_of again target.path host unit) _
            (units_of-Ends again target.path host unit i h)
            (λ units u.
              >>=-Returns (λ _. Unit) (λ _. Unit)
                (splice_section (λ c. plan_candidate unicode engine registry c target) again
                  target.path host candidates)
                _ (splice_section-Ends searches again target host candidates h ks) (λ rest v. tt)))

  report_empty-Ends :
      (r : Reference) (unit : ReferenceUnit) (found : List StepsUnit)
      → Ends (report_empty r unit found)
  unfolding report_empty
  report_empty-Ends r unit [] = tt
  report_empty-Ends r unit (s ∷ found) = tt

  refuse_or :
      (b : Bool) (d : Diagnostic) (m : Planned (List StepsUnit))
      → Ends m
      → Ends (if b then refuse d else m)
  refuse_or true d m h = tt
  refuse_or false d m h = h

  module _ (workspace : OathWorkspace)
      (known : All (λ p. AreKnown unicode engine registry keys p.1) workspace.docs) where
    doc_at-cases :
        (path p : Text) (doc d : Doc) (docs : List (Text × Doc))
        → doc_at path ((p, doc) ∷ docs) ≡ some d
        → (doc_at path docs ≡ some d) ⊎ (doc ≡ d)
    unfolding doc_at
    doc_at-cases path p doc d docs e = elim (Option-cases (doc_at path docs)) [
      | inl n ↦ elim (Bool-cases (text_eq p path)) [
        | inl q ↦ inr (ground arith)
        | inr q ↦ absurd (ground arith)
      ]
      | inr (d', q) ↦ inl (ground arith)
    ]

    doc_at-AreKnown :
        (path : Text) (docs : List (Text × Doc)) (d : Doc)
        → All (λ p. AreKnown unicode engine registry keys p.1) docs
        → doc_at path docs ≡ some d
        → AreKnown unicode engine registry keys d
    doc_at-AreKnown path [] d h e = absurd (unfold doc_at in cc)
    doc_at-AreKnown path ((p, doc) ∷ docs) d (k, h) e = elim (doc_at-cases path p doc d docs e) [
      | inl q ↦ doc_at-AreKnown path docs d h q
      | inr q ↦ subst (AreKnown unicode engine registry keys) q k
    ]

    target_of-AreKnown :
        (r : Reference) (origin target : Doc)
        → AreKnown unicode engine registry keys origin
        → target_of unicode engine registry workspace r origin ≡ some target
        → AreKnown unicode engine registry keys target
    unfolding target_of
    target_of-AreKnown r origin target k e = elim (Bool-cases (text_eq r.path origin.path)) [
      | inl q ↦
          let same : origin ≡ target = ground arith in
          subst (AreKnown unicode engine registry keys) same k
      | inr q ↦ doc_at-AreKnown r.path workspace.docs target known (ground arith)
    ]

    resolve_section-Ends :
        Searches engine registry
        → (again : ReferenceUnit → Doc → List Text → Planned (List StepsUnit))
          (unit : ReferenceUnit) (origin target : Doc) (chain : List Text)
        → ((u : ReferenceUnit) → KeyIn keys (reference u) → Ends (again u target chain))
        → AreKnown unicode engine registry keys target
        → Ends (resolve_section unicode engine registry workspace again unit origin chain target)
    unfolding resolve_section
    resolve_section-Ends searches again unit origin target chain h k =
        >>=-Returns (λ _. Unit) (λ _. Unit)
          (splice_section (λ c. plan_candidate unicode engine registry c target)
            (λ u. again u target chain) target.path origin.path
            (section_candidates unicode target unit.reference.slug))
          _
          (splice_section-Ends searches (λ u. again u target chain) target origin.path _ h
            (section_candidates-All (IsKnown unicode engine registry keys target.path) target
              unit.reference.slug k))
          (λ found u. report_empty-Ends unit.reference unit found)

    resolve_in-Ends :
        Searches engine registry
        → (again : ReferenceUnit → Doc → List Text → Planned (List StepsUnit))
          (unit : ReferenceUnit) (origin : Doc) (chain : List Text)
        → ((u : ReferenceUnit) (target : Doc)
            → KeyIn keys (reference u)
            → AreKnown unicode engine registry keys target
            → Ends (again u target chain))
        → AreKnown unicode engine registry keys origin
        → Ends (
            resolve_in unicode engine registry workspace again unit origin chain
              (target_of unicode engine registry workspace unit.reference origin))
    unfolding resolve_in
    resolve_in-Ends searches again unit origin chain h k =
        elim (Option-cases (target_of unicode engine registry workspace unit.reference origin)) [
          | inl e ↦ rw (resolve_in, e) tt
          | inr (target, e) ↦
              let there = target_of-AreKnown unit.reference origin target k e in
              rw (resolve_in, e)
                (refuse_or (is_ambiguous unicode engine registry workspace unit.reference target) _
                  _
                  (resolve_section-Ends searches again unit origin target chain
                    (λ u i. h u target i there) there))
        ]

    pub resolve_reference-Ends :
        Searches engine registry
        → (fuel : ℕ) (unit : ReferenceUnit) (origin : Doc) (chain : List Text) → IsTokenSet chain
        → All (λ t. has t keys ≡ true) chain
        → length keys < fuel + length chain
        → KeyIn keys (reference unit)
        → AreKnown unicode engine registry keys origin
        → Ends (resolve_reference unicode engine registry workspace fuel unit origin chain)
    unfolding resolve_reference
    resolve_reference-Ends searches zero unit origin chain d a l i k =
        absurd (omega (arith, length-le-All chain keys d a))
    resolve_reference-Ends searches (suc fuel) unit origin chain d a l i k =
        let key = section_key unit.reference.path unit.reference.slug in
        elim (Bool-cases (has key chain)) [
          | inl e ↦ rw (resolve_reference, e) tt
          | inr e ↦
              rw (resolve_reference, e)
                (resolve_in-Ends searches (resolve_reference unicode engine registry workspace fuel)
                  unit origin (chain ++ key ∷ [])
                  (λ u target j there.
                    resolve_reference-Ends searches fuel u target (chain ++ key ∷ [])
                      (IsTokenSet-append chain key d e) (All-append _ chain (key ∷ []) a (i, tt))
                      (omega (arith, length-append {0} chain (key ∷ []))) j there)
                  k)
        ]
