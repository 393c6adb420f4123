-- ===== src/Drift/Reported.antt =====
-- What a reported drift says of the document.
use varar.Base.{
  ℕ, false, List, [], ◌∷◌, map, Option, none, some, ◌≡◌, refl, sym, subst, All, All-append, All-map,
  Any, Bool-cases, inl, inr,
}
use varar.Text.{Text}
use varar.Ast.{Example, Doc}
use varar.Plan.{ExecutionPlan}
use varar.Plan.Names.{derive_example_name}
use varar.Drift.{
  BaselineExample, OathBaseline, Drift, Entry, Best, is_below_threshold, similarity, improves,
  consider, is_live, tokenize, entry_of, drift_of, best_of, drifts_from, detect_drift, line_of,
}

-- At least half of the words are shared.
abbrev pub IsSimilar : List Text → List Text → Type 0
IsSimilar a b = is_below_threshold (similarity a b) ≡ false

-- What the best candidate is, if there is one.
abbrev OfBest : (Entry → Type 0) → List Text → Option Best → Type 0
OfBest P tokens none = Unit
OfBest P tokens (some best) = P best.entry × IsSimilar tokens best.entry.tokens

module _ (P : Entry → Type 0) (tokens : List Text) (line : ℕ) where
  consider-OfBest :
      (e : Entry) (best : Option Best)
      → P e
      → OfBest P tokens best
      → OfBest P tokens (consider tokens line e best)
  unfolding consider
  consider-OfBest e best p b = elim (Bool-cases (is_below_threshold (similarity tokens e.tokens))) [
    | inl q ↦ rw q b
    | inr q ↦ elim (Bool-cases (improves line e (similarity tokens e.tokens) best)) [
      | inl i ↦ rw (q, i) (p, q)
      | inr i ↦ rw (q, i) b
    ]
  ]

  best_of-OfBest :
      (entries : List Entry) (best : Option Best)
      → All P entries
      → OfBest P tokens best
      → OfBest P tokens (best_of tokens line entries best)
  unfolding best_of
  best_of-OfBest [] best a b = b
  best_of-OfBest (e ∷ entries) best (p, a) b =
      best_of-OfBest entries _ a (consider-OfBest e best p b)

module _ (words : Text → List Text) (doc : Doc) (plan : ExecutionPlan) where
  -- The paragraph overlaps no example of the plan, it shares at least half of its words with the
  -- recorded one, and the drift names its place.
  abbrev pub IsDriftOf : Drift → BaselineExample → Example → Type 0
  IsDriftOf drift b c =
      (is_live c.span plan.examples ≡ false)
      × IsSimilar (tokenize words b.name) (tokenize words (derive_example_name c.body))
      × (drift ≡ record { name = b.name; line = c.span.start_line; span = c.span })

  -- The paragraph of the entry is one of the document.
  abbrev IsListed : Entry → Type 0
  IsListed e = Any (λ c. entry_of words plan.examples c ≡ e) doc.examples

  listed :
      (candidates : List Example)
      → All
          (λ c.
            Any (λ d. entry_of words plan.examples d ≡ entry_of words plan.examples c) doc.examples)
          candidates
      → All IsListed (map (entry_of words plan.examples) candidates)
  listed [] a = tt
  listed (c ∷ candidates) (p, a) = (p, listed candidates a)

  Any-refl :
      (candidates : List Example)
      → All
          (λ c.
            Any (λ d. entry_of words plan.examples d ≡ entry_of words plan.examples c) candidates)
          candidates
  Any-refl [] = tt
  Any-refl (c ∷ candidates) = (inl refl, All-map (λ d q. inr q) candidates (Any-refl candidates))

  -- the drift is one of the entry's paragraph
  dead-Any :
      (candidates : List Example) (b : BaselineExample) (e : Entry) (drift : Drift)
      → Any (λ c. entry_of words plan.examples c ≡ e) candidates
      → e.live ≡ false
      → IsSimilar (tokenize words b.name) e.tokens
      → drift ≡ record { name = b.name; line = line_of e; span = e.candidate.span }
      → Any (IsDriftOf drift b) candidates
  unfolding entry_of
  dead-Any [] b e drift q l s is = absurd q
  dead-Any (c ∷ candidates) b e drift (inl q) l s is = inl (
      subst
        (λ (x : Entry).
          (x.live ≡ false)
          × IsSimilar (tokenize words b.name) x.tokens
          × (drift ≡ record { name = b.name; line = line_of x; span = x.candidate.span }))
        (sym q) (l, s, is))
  dead-Any (c ∷ candidates) b e drift (inr q) l s is = inr (dead-Any candidates b e drift q l s is)

  -- The drift is one of a recorded paragraph and a paragraph of the document.
  abbrev pub IsExplained : List BaselineExample → Drift → Type 0
  IsExplained baseline drift = Any (λ b. Any (IsDriftOf drift b) doc.examples) baseline

  drift_of-All :
      (b : BaselineExample) (best : Option Best)
      → OfBest IsListed (tokenize words b.name) best
      → All (λ drift. Any (IsDriftOf drift b) doc.examples) (drift_of words b best)
  unfolding drift_of
  drift_of-All b none o = tt
  drift_of-All b (some best) (p, s) = elim (Bool-cases best.entry.live) [
    | inl l ↦ rw l tt
    | inr l ↦ rw l (dead-Any doc.examples b best.entry _ p l s refl, tt)
  ]

  drifts_from-All :
      (baseline : List BaselineExample)
      → All
          (IsExplained baseline)
          (drifts_from words (map (entry_of words plan.examples) doc.examples) baseline)
  unfolding drifts_from
  drifts_from-All [] = tt
  drifts_from-All (b ∷ baseline) =
      All-append _ _ _
        (All-map (λ drift q. inl q) _
          (drift_of-All b _ (
            best_of-OfBest IsListed (tokenize words b.name) b.line _ none
              (listed doc.examples (Any-refl doc.examples)) tt)))
        (All-map (λ drift q. inr q) _ (drifts_from-All baseline))

  -- Every drift that is reported is one of a recorded paragraph and of a paragraph of the document
  -- that overlaps no example of the plan and shares at least half of the words; the drift has the
  -- recorded name, and the place of the paragraph.
  pub detect_drift_sound :
      (baseline : OathBaseline)
      → All (IsExplained baseline.examples) (detect_drift words (some baseline) doc plan)
  unfolding detect_drift
  detect_drift_sound baseline = drifts_from-All baseline.examples
