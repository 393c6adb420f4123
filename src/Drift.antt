-- ===== src/Drift.antt =====
-- typescript/packages/core/src/drift.ts: paragraphs that were examples and no longer match a step.
pub mod Identity
pub mod Unchanged
pub mod Reported
pub mod Lock
mod Tests
use varar.Base.{
  ℕ, suc, ◌+◌, ◌-◌, ◌*◌, Bool, true, false, not, ◌&&◌, ◌||◌, List, [], ◌∷◌, ◌++◌, map, Option, none,
  some, ◌==◌, ltb, leb, if◌then◌else◌, length,
}
use varar.Text.Sets.{has, count_in}
use varar.Text.{Text, text_eq}
use varar.Span.{Span}
use varar.Ast.{Example, Doc}
use varar.Hash.{hash_source}
use varar.Diagnostics.{Diagnostic, drift_detected}
use varar.Plan.{PlannedExample, ExecutionPlan}
use varar.Plan.Names.{derive_example_name}

pub record BaselineExample : Type 0 where
  pub name : Text
  pub line : ℕ

pub record OathBaseline : Type 0 where
  pub source_hash : Text
  pub examples : List BaselineExample

pub record Drift : Type 0 where
  pub name : Text
  pub line : ℕ
  pub span : Span

unfoldable pub overlaps : Span → Span → Bool
overlaps a b = ltb a.start_offset b.end_offset && ltb b.start_offset a.end_offset

unfoldable pub is_live : Span → List PlannedExample → Bool
unfolding overlaps
is_live span [] = false
is_live span (pe ∷ examples) = overlaps pe.span span || is_live span examples

-- a `Set` of the words, added one by one from the last to the first
unfoldable pub token_set : List Text → List Text
unfolding has
token_set [] = []
token_set (t ∷ words) = let set = token_set words in if has t set then set else t ∷ set

-- A similarity is a fraction. (The quotients of the source are of small numbers, and compare as the
-- fractions do.)
pub record Score : Type 0 where
  pub num : ℕ
  pub den : ℕ

unfoldable pub similarity : List Text → List Text → Score
unfolding count_in
similarity a b =
    if length a == 0 && length b == 0
    then record { num = 1; den = 1 }
    else let intersection = count_in a b in
      let union = length a + length b - intersection in
      if union == 0 then record { num = 0; den = 1 } else record { num = intersection; den = union }

abbrev pub exceeds : Score → Score → Bool
exceeds s t = ltb (t.num * s.den) (s.num * t.den)

abbrev pub equals : Score → Score → Bool
equals s t = s.num * t.den == t.num * s.den

-- `score < DRIFT_SIMILARITY_THRESHOLD`, which is 0.5
abbrev pub is_below_threshold : Score → Bool
is_below_threshold s = ltb (2 * s.num) s.den

-- `Math.abs(a - b)`
abbrev pub distance : ℕ → ℕ → ℕ
distance a b = (a - b) + (b - a)

-- a candidate with its entries in the arrays `tokens` and `live`
pub record Entry : Type 0 where
  pub candidate : Example
  pub tokens : List Text
  pub live : Bool

-- the entry at `bestIdx`, and `bestScore`
pub record Best : Type 0 where
  pub entry : Entry
  pub score : Score

abbrev pub line_of : Entry → ℕ
line_of e = e.candidate.span.start_line

unfoldable pub improves : ℕ → Entry → Score → Option Best → Bool
improves line e score none = true
improves line e score (some best) =
    exceeds score best.score
    || (equals score best.score
        && ltb (distance (line_of e) line) (distance (line_of best.entry) line))

-- one round of the inner loop
unfoldable pub consider : List Text → ℕ → Entry → Option Best → Option Best
unfolding similarity improves
consider tokens line e best =
    let score = similarity tokens e.tokens in
    if is_below_threshold score
    then best
    else if improves line e score best
    then some (record { entry = e; score = score })
    else best

unfoldable pub best_of : List Text → ℕ → List Entry → Option Best → Option Best
unfolding consider
best_of tokens line [] best = best
best_of tokens line (e ∷ entries) best = best_of tokens line entries (consider tokens line e best)

-- `words` is the list of the matches of /[\p{L}\p{N}]+/gu in the lower-cased text.
module _ (words : Text → List Text) where
  unfoldable pub tokenize : Text → List Text
  unfolding token_set
  tokenize text = token_set (words text)

  unfoldable pub entry_of : List PlannedExample → Example → Entry
  unfolding tokenize derive_example_name is_live
  entry_of examples c = record {
    candidate = c;
    tokens = tokenize (derive_example_name c.body);
    live = is_live c.span examples;
  }

  -- behind the inner loop
  unfoldable pub drift_of : BaselineExample → Option Best → List Drift
  drift_of b none = []
  drift_of b (some best) =
      if best.entry.live
      then []
      else record { name = b.name; line = line_of best.entry; span = best.entry.candidate.span }
        ∷ []

  unfoldable pub drifts_from : List Entry → List BaselineExample → List Drift
  unfolding best_of tokenize drift_of
  drifts_from entries [] = []
  drifts_from entries (b ∷ baseline) =
      drift_of b (best_of (tokenize b.name) b.line entries none) ++ drifts_from entries baseline

  unfoldable pub detect_drift : Option OathBaseline → Doc → ExecutionPlan → List Drift
  unfolding drifts_from entry_of
  detect_drift none doc plan = []
  detect_drift (some baseline) doc plan =
      drifts_from (map (entry_of plan.examples) doc.examples) baseline.examples

unfoldable pub live_from : List Example → List PlannedExample → List BaselineExample
unfolding is_live derive_example_name
live_from [] examples = []
live_from (c ∷ candidates) examples =
    let rest = live_from candidates examples in
    if is_live c.span examples
    then record { name = derive_example_name c.body; line = c.span.start_line } ∷ rest
    else rest

unfoldable pub live_examples : Doc → ExecutionPlan → List BaselineExample
unfolding live_from
live_examples doc plan = live_from doc.examples plan.examples

unfoldable pub derive_oath_baseline : Text → Doc → ExecutionPlan → OathBaseline
unfolding hash_source live_examples
derive_oath_baseline source doc plan = record {
  source_hash = hash_source source;
  examples = live_examples doc plan;
}

unfoldable pub drift_diagnostics : List Drift → List Diagnostic
unfolding drift_detected
drift_diagnostics drifts = map (λ d. drift_detected d.name d.span) drifts
