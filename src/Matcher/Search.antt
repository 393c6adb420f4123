-- ===== src/Matcher/Search.antt =====
-- `findHits`: the loop of `exec` calls over one sentence. The regular expression engine, the
-- expression library and the authors' `parse` functions are parameters.
use varar.Base.{
  ℕ, zero, suc, ◌+◌, ◌≤◌, ◌<◌, List, [], ◌∷◌, ◌++◌, map, Option, none, some, ◌≡◌, inl, inr, arith,
  ◌==◌, if◌then◌else◌, length, All, All-append, Option-cases, ◌≢◌,
}
use mathlib.Core.Option
use varar.Text.{Text, text_eq}
use varar.Value.{Value}
use varar.Registry.{StepRegistration, Registry}
use varar.Matcher.{Hit, ParamSpan}
use varar.Matcher.Searched.{Searched, searched, out_of_fuel, returned, ◌>>=◌, Finds, >>=-Finds}

-- the result of `exec`: `m.index` and `m[0]`
pub record RegexMatch : Type 0 where
  pub index : ℕ
  pub text : Text

-- `Group`, with the spans of its children; a group that took no part has no span
pub record Group : Type 0 where
  pub span : Option ParamSpan
  pub children : List (Option ParamSpan)

-- `Argument`; `value` is what `getValue` returns, and `none` where the author's `parse` throws
pub record Argument : Type 0 where
  pub value : Option Value
  pub type_name : Text
  pub group : Group

-- `innerSpan`
unfoldable pub inner_span : List (Option ParamSpan) → Option ParamSpan
inner_span [] = none
inner_span (none ∷ children) = inner_span children
inner_span (some s ∷ children) = some s

abbrev shift : ℕ → ParamSpan → ParamSpan
shift by s = record { start = by + s.start; end = by + s.end }

-- what one argument adds to `paramSpans` and to `paramInnerSpans`
abbrev spans_of : ℕ → Argument → Option (ParamSpan × ParamSpan)
spans_of index a = Option.map (λ s. (shift index s, inner s)) a.group.span
  where
    inner : ParamSpan → ParamSpan
    inner s = elim (inner_span a.group.children) [ none ↦ shift index s | some i ↦ shift index i ]

unfoldable pub arg_spans : ℕ → List Argument → List (ParamSpan × ParamSpan)
unfolding inner_span
arg_spans index [] = []
arg_spans index (a ∷ args) = elim (spans_of index a) [
  | none ↦ arg_spans index args
  | some s ↦ s ∷ arg_spans index args
]

abbrev format_of : List (Text × ℕ) → Text → Option ℕ
format_of [] name = none
format_of ((n, f) ∷ formats) name = if text_eq n name then some f else format_of formats name

-- What the source uses of the expression library and of regular expressions: `exec` from a position
-- on, by the expression without its anchors, and `match` on the matched text.
pub record Engine : Type 0 where
  pub exec : ℕ → Text → ℕ → Option RegexMatch
  pub match : ℕ → Text → Option (List Argument)

-- The documented behaviour of `exec`: a match starts at or behind `lastIndex` and lies in the text.
pub record IsEngine (engine : Engine) : Type 0 where
  pub from_last_index :
      (c : ℕ) (s : Text) (i : ℕ) (m : RegexMatch) → engine.exec c s i ≡ some m → i ≤ m.index
  pub in_text :
      (c : ℕ) (s : Text) (i : ℕ) (m : RegexMatch)
      → engine.exec c s i ≡ some m
      → m.index + length m.text ≤ length s

-- The authors' `parse` functions return, whatever text their expressions match.
abbrev pub Parses : Engine → Type 0
Parses engine =
    (c : ℕ) (s : Text) (args : List Argument)
    → engine.match c s ≡ some args
    → All (λ a. a.value ≢ none) args

abbrev arguments : Option (List Argument) → List Argument
arguments none = []
arguments (some args) = args

-- `matched?.map((a) => a.getValue(undefined))`
unfoldable pub values_of : List Argument → Option (List Value)
values_of [] = some []
values_of (a ∷ args) = elim a.value [ none ↦ none | some v ↦ Option.map (◌∷◌ v) (values_of args) ]

abbrev pub InSentence : Text → Hit → Type 0
InSentence sentence h = (h.match_start ≤ h.match_end) × (h.match_end ≤ length sentence)

module _ (engine : Engine) (registry : Registry) where
  -- the entry that one match pushes on `hits`, with the values of its arguments
  unfoldable pub hit_with : StepRegistration → RegexMatch → List Argument → List Value → Hit
  unfolding arg_spans text_eq
  hit_with step m args values =
      let spans = arg_spans m.index args in
      record {
        expression = step.expression;
        step_def = step;
        match_start = m.index;
        match_end = m.index + length m.text;
        args = values;
        param_spans = map (λ s. s.0) spans;
        param_inner_spans = map (λ s. s.1) spans;
        formats = map (λ a. format_of registry.formats a.type_name) args;
      }

  unfoldable pub hit_of : StepRegistration → RegexMatch → Searched Hit
  unfolding hit_with values_of
  hit_of step m =
      let args = arguments (engine.match step.compiled m.text) in
      do values ← returned (values_of args); searched (hit_with step m args values)

  -- `lastIndex` for the next round: behind the match, and one further behind an empty one
  abbrev next_index : RegexMatch → ℕ
  next_index m = if length m.text == 0 then m.index + 1 else m.index + length m.text

  -- the inner loop from `last_index` on, with fuel
  unfoldable pub hits_from : ℕ → StepRegistration → Text → ℕ → Searched (List Hit)
  unfolding hit_of
  hits_from zero step sentence last_index = out_of_fuel
  hits_from (suc fuel) step sentence last_index =
      elim (engine.exec step.compiled sentence last_index) [
        | none ↦ searched []
        | some m ↦ do
          hit ← hit_of step m
          hits ← hits_from fuel step sentence (next_index m)
          searched (hit ∷ hits)
      ]

  unfoldable pub hits_of : List StepRegistration → Text → Searched (List Hit)
  unfolding hits_from
  hits_of [] sentence = searched []
  hits_of (step ∷ steps) sentence = do
    hits ← hits_from (length sentence + 2) step sentence 0
    rest ← hits_of steps sentence
    searched (hits ++ rest)

  unfoldable pub find_hits : Text → Searched (List Hit)
  unfolding hits_of
  find_hits sentence = hits_of registry.steps sentence

  values_of-Parses : (args : List Argument) → All (λ a. a.value ≢ none) args → values_of args ≢ none
  unfolding values_of
  values_of-Parses [] h e = cc
  values_of-Parses (a ∷ args) (p, h) e = elim (Option-cases a.value) [
    | inl n ↦ p n
    | inr (v, n) ↦ values_of-Parses args h (ground arith)
  ]

  arguments_parse :
      Parses engine → (c : ℕ) (s : Text) → All (λ a. a.value ≢ none) (arguments (engine.match c s))
  arguments_parse h c s = elim (Option-cases (engine.match c s)) [
    | inl e ↦ rw e tt
    | inr (args, e) ↦ rw e (h c s args e)
  ]

  module _ (law : IsEngine engine) where
    -- It lies in the sentence, or a `parse` threw.
    hit_of-InSentence :
        (step : StepRegistration) (sentence : Text) (i : ℕ) (m : RegexMatch)
        → engine.exec step.compiled sentence i ≡ some m
        → Finds (¬ Parses engine) (InSentence sentence) (hit_of step m)
    unfolding hit_of hit_with
    hit_of-InSentence step sentence i m e =
        let args = arguments (engine.match step.compiled m.text) in
        elim (Option-cases (values_of args)) [
          | inl n ↦
              rw (hit_of, n) (λ h. values_of-Parses args (arguments_parse h step.compiled m.text) n)
          | inr (values, n) ↦ rw (hit_of, n) (omega arith, law.in_text step.compiled sentence i m e)
        ]

    hits_from_total :
        (fuel : ℕ) (step : StepRegistration) (sentence : Text) (i : ℕ)
        → length sentence + 2 ≤ fuel + i
        → 0 < fuel
        → Finds (¬ Parses engine) (All (InSentence sentence)) (hits_from fuel step sentence i)
    unfolding hits_from
    hits_from_total zero step sentence i h p = elim p [ ]
    hits_from_total (suc fuel) step sentence i h p =
        elim (Option-cases (engine.exec step.compiled sentence i)) [
          | inl e ↦ rw (e, hits_from) tt
          | inr (m, e) ↦
              let behind = law.from_last_index step.compiled sentence i m e in
              let inside = law.in_text step.compiled sentence i m e in
              rw (e, hits_from)
                (>>=-Finds (¬ Parses engine) (InSentence sentence) (All (InSentence sentence))
                  (hit_of step m) _ (hit_of-InSentence step sentence i m e)
                  (λ hit q.
                    >>=-Finds (¬ Parses engine) (All (InSentence sentence))
                      (All (InSentence sentence)) (hits_from fuel step sentence (next_index m)) _
                      (hits_from_total fuel step sentence (next_index m) (ground arith)
                        (ground arith))
                      (λ hits r. (q, r))))
        ]

    hits_of_total :
        (steps : List StepRegistration) (sentence : Text)
        → Finds (¬ Parses engine) (All (InSentence sentence)) (hits_of steps sentence)
    unfolding hits_of
    hits_of_total [] sentence = tt
    hits_of_total (step ∷ steps) sentence =
        >>=-Finds (¬ Parses engine) (All (InSentence sentence)) (All (InSentence sentence))
          (hits_from (length sentence + 2) step sentence 0) _
          (hits_from_total (length sentence + 2) step sentence 0 (omega arith) (omega arith))
          (λ first p.
            >>=-Finds (¬ Parses engine) (All (InSentence sentence)) (All (InSentence sentence))
              (hits_of steps sentence) _ (hits_of_total steps sentence)
              (λ rest q. All-append (InSentence sentence) first rest p q))

    -- Every search ends, if the regular expression engine behaves as documented: it throws only if an
    -- author's `parse` does, and otherwise every match that it finds lies in the sentence, its start not
    -- behind its end.
    pub find_hits_total :
        (sentence : Text) → Finds (¬ Parses engine) (All (InSentence sentence)) (find_hits sentence)
    unfolding find_hits
    find_hits_total sentence = hits_of_total registry.steps sentence
