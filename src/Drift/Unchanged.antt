-- ===== src/Drift/Unchanged.antt =====
-- A document does not drift from the baseline that its own run records.
use varar.Base.{
  ℕ, true, List, [], ◌∷◌, ◌++◌, map, none, some, ◌≡◌, ◌≢◌, refl, ap, sym, ◌∙◌, append_assoc, All,
  All-append, All-map, Bool-cases, inl, inr,
}
use varar.Text.{Text}
use varar.Ast.{Example, Doc}
use varar.Plan.{PlannedExample, ExecutionPlan}
use varar.Plan.Names.{derive_example_name}
use varar.Drift.{
  BaselineExample, Entry, is_live, tokenize, entry_of, drift_of, best_of, drifts_from, detect_drift,
  live_from, live_examples, derive_oath_baseline, line_of,
}
use varar.Drift.Identity.{token_set-IsTokenSet, best_of-itself}

-- The paragraphs start in different lines.
abbrev pub HaveDistinctLines : List Example → Type 0
HaveDistinctLines [] = Unit
HaveDistinctLines (c ∷ candidates) =
    All (λ d. d.span.start_line ≢ c.span.start_line) candidates × HaveDistinctLines candidates

module _ (words : Text → List Text) (examples : List PlannedExample) where
  abbrev entries_of : List Example → List Entry
  entries_of candidates = map (entry_of words examples) candidates

  entries-All :
      (line : ℕ) (candidates : List Example)
      → All (λ d. d.span.start_line ≢ line) candidates
      → All (λ e. line_of e ≢ line) (entries_of candidates)
  unfolding entry_of
  entries-All line [] a = tt
  entries-All line (c ∷ candidates) (n, a) = (n, entries-All line candidates a)

  entries-append :
      (before after : List Example)
      → entries_of (before ++ after) ≡ entries_of before ++ entries_of after
  entries-append [] after = refl
  entries-append (c ∷ before) after =
      ap (λ l. entry_of words examples c ∷ l) (entries-append before after)

  -- A live paragraph is recognized among the others, and is not reported.
  recognized :
      (before after : List Example) (c : Example)
      → All (λ d. d.span.start_line ≢ c.span.start_line) before
      → All (λ d. d.span.start_line ≢ c.span.start_line) after
      → is_live c.span examples ≡ true
      → (b : BaselineExample)
      → drift_of words b (
          best_of
            (tokenize words (derive_example_name c.body))
            c.span.start_line
            (entries_of (before ++ c ∷ after))
            none)
        ≡ []
  unfolding drift_of entry_of tokenize
  recognized before after c p q l b =
      ap
        (λ es.
          drift_of words b
            (best_of (tokenize words (derive_example_name c.body)) c.span.start_line es none))
        (entries-append before (c ∷ after))
      ∙ ap (drift_of words b) (
          best_of-itself (tokenize words (derive_example_name c.body)) c.span.start_line
            (token_set-IsTokenSet (words (derive_example_name c.body))) (entry_of words examples c)
            refl refl (entries_of before) (entries_of after) none (entries-All _ before p)
            (entries-All _ after q) tt)
      ∙ (rw l refl)

  -- the loop over the live paragraphs `candidates`, behind the paragraphs `before`
  live_from-drifts_from :
      (before candidates : List Example)
      → All (λ p. All (λ d. d.span.start_line ≢ p.span.start_line) candidates) before
      → HaveDistinctLines candidates
      → drifts_from words (entries_of (before ++ candidates)) (live_from candidates examples) ≡ []
  unfolding drifts_from live_from
  live_from-drifts_from before [] a d = refl
  live_from-drifts_from before (c ∷ after) a (n, d) =
      let rest = rw append_assoc at (
        live_from-drifts_from (before ++ c ∷ []) after
          (All-append _ before (c ∷ []) (All-map (λ p h. h.1) before a) (n, tt)) d) in
      elim (Bool-cases (is_live c.span examples)) [
        | inl l ↦
            rw (l, recognized before after c (All-map (λ p h e. h.0 (sym e)) before a) n l) rest
        | inr l ↦ rw l rest
      ]

-- Whatever the words of a text are: a baseline that is recorded for a document and plan shows no
-- drift in them, if the paragraphs of the document start in different lines.
pub detect_drift_unchanged :
    (words : Text → List Text) (source : Text) (doc : Doc) (plan : ExecutionPlan)
    → HaveDistinctLines doc.examples
    → detect_drift words (some (derive_oath_baseline source doc plan)) doc plan ≡ []
unfolding detect_drift derive_oath_baseline live_examples
detect_drift_unchanged words source doc plan d =
    live_from-drifts_from words plan.examples [] doc.examples tt d
