-- ===== src/Plan/Ranges.antt =====
-- Where the steps of a block stand in its text.
use varar.Base.{
  ℕ, ◌-◌, ◌≤◌, List, [], ◌∷◌, ◌++◌, map, ◌≡◌, refl, ap, subst, arith, length, inl, inr, All, Any,
  All-append, All-map, length-take, drop,
}
use varar.Text.{Text}
use varar.Registry.{Registry}
use varar.Sentences.{Sentence, split_sentences}
use varar.Sentences.Bounds.{Covers, split_sentences-Covers}
use varar.Matcher.{Hit, ResolvedSteps, ok, ambiguous, resolve_hits}
use varar.Matcher.Search.{Engine, IsEngine, Parses, InSentence, find_hits, find_hits_total}
use varar.Matcher.Searched.{Finds, >>=-Finds}
use varar.Matcher.Greedy.{IsDisjoint, resolve_hits_sound}
use varar.Plan.Blocks.{
  BlockPlan, shift_hit, add_resolved, resolve_sentence, plan_sentences, plan_block,
}

-- The match lies in the sentence.
abbrev pub LiesIn : Sentence → Hit → Type 0
LiesIn s h =
    (s.start_offset ≤ h.match_start) × (h.match_start ≤ h.match_end) × (h.match_end ≤ s.end_offset)

IsDisjoint-from :
    (a : ℕ) (hits : List Hit)
    → IsDisjoint 0 hits
    → All (λ h. a ≤ h.match_start) hits
    → IsDisjoint a hits
IsDisjoint-from a [] d h = tt
IsDisjoint-from a (x ∷ hits) (d, e) (h, k) = (h, e)

IsDisjoint-lower : (a b : ℕ) (hits : List Hit) → a ≤ b → IsDisjoint b hits → IsDisjoint a hits
IsDisjoint-lower a b [] l d = tt
IsDisjoint-lower a b (x ∷ hits) l (p, d) = (omega arith, d)

IsDisjoint-append :
    (a b : ℕ) (xs ys : List Hit)
    → a ≤ b
    → IsDisjoint a xs
    → All (λ h. (h.match_end ≤ b)) xs
    → IsDisjoint b ys
    → IsDisjoint a (xs ++ ys)
IsDisjoint-append a b [] [] l d h e = tt
IsDisjoint-append a b [] (y ∷ ys) l d h (p, e) = (omega arith, e)
IsDisjoint-append a b (x ∷ xs) ys l (p, d) (h, k) e =
    (p, IsDisjoint-append x.match_end b xs ys h d k e)

Any-All : (Q : Hit → Type 0) (hits : List Hit) (h : Hit) → All Q hits → Any (λ k. k ≡ h) hits → Q h
Any-All Q (k ∷ hits) h (q, r) (inl e) = subst Q e q
Any-All Q (k ∷ hits) h (q, r) (inr a) = Any-All Q hits h r a
Any-All Q [] h r a = absurd a

All-shift :
    (s : Sentence) (hits : List Hit)
    → length s.text ≤ s.end_offset - s.start_offset
    → s.start_offset ≤ s.end_offset
    → All (InSentence s.text) hits
    → All (LiesIn s) (map (shift_hit s.start_offset) hits)
All-shift s [] l k h = tt
All-shift s (x ∷ hits) l k (p, h) =
    ((omega arith, omega (arith, p), omega (arith, p)), All-shift s hits l k h)

-- the steps that a sentence adds
abbrev added : ResolvedSteps → List Hit
added (ok steps) = steps
added (ambiguous collisions) = []

added_lem :
    (r : ResolvedSteps) (rest : BlockPlan) → (add_resolved r rest).steps ≡ added r ++ rest.steps
added_lem (ok steps) rest = refl
added_lem (ambiguous collisions) rest = refl

added_sound :
    (s : Sentence) (hits : List Hit) (r : ResolvedSteps)
    → resolve_hits hits ≡ r
    → All (LiesIn s) hits
    → IsDisjoint s.start_offset (added r) × All (LiesIn s) (added r)
added_sound s hits (ambiguous collisions) e h = (tt, tt)
added_sound s hits (ok steps) e h =
    let (d, p, q) = resolve_hits_sound hits steps e in
    let inside : All (LiesIn s) steps = All-map (λ x a. Any-All (LiesIn s) hits x h a) steps p in
    (IsDisjoint-from s.start_offset steps d (All-map (λ x l. l.0) steps inside), inside)

-- The steps of a block's text stand behind `from` in order and without overlap, each in a sentence.
abbrev pub IsPlaced : ℕ → List Sentence → BlockPlan → Type 0
IsPlaced from sentences p =
    IsDisjoint from p.steps × All (λ h. Any (λ s. LiesIn s h) sentences) p.steps

AddsPlaced : Sentence → ResolvedSteps → Type 0
AddsPlaced s r = IsDisjoint s.start_offset (added r) × All (LiesIn s) (added r)

add_resolved-IsPlaced :
    (from : ℕ) (s : Sentence) (sentences : List Sentence) (r : ResolvedSteps) (rest : BlockPlan)
    → from ≤ s.start_offset
    → s.start_offset ≤ s.end_offset
    → AddsPlaced s r
    → IsPlaced s.end_offset sentences rest
    → IsPlaced from (s ∷ sentences) (add_resolved r rest)
unfolding AddsPlaced
add_resolved-IsPlaced from s sentences r rest l k (d, inside) (e, behind) = rw (added_lem r rest) (
  IsDisjoint-append from s.end_offset (added r) rest.steps (omega arith)
      (IsDisjoint-lower from s.start_offset (added r) l d) (All-map (λ x a. a.2) (added r) inside)
      e,
  All-append _ (added r) rest.steps (All-map (λ x a. inl a) (added r) inside)
      (All-map (λ x a. inr a) _ behind),
)

module _ (engine : Engine) (registry : Registry) (law : IsEngine engine) where
  resolve_sentence_sound :
      (s : Sentence)
      → length s.text ≤ s.end_offset - s.start_offset
      → s.start_offset ≤ s.end_offset
      → Finds (¬ Parses engine) (AddsPlaced s) (resolve_sentence engine registry s)
  unfolding resolve_sentence AddsPlaced
  resolve_sentence_sound s l k =
      >>=-Finds (¬ Parses engine) (All (InSentence s.text)) (AddsPlaced s)
        (find_hits engine registry s.text) _ (find_hits_total engine registry law s.text)
        (λ hits inside.
          added_sound s (map (shift_hit s.start_offset) hits) _ refl (All-shift s hits l k inside))

  plan_sentences-IsPlaced :
      (text : Text) (from : ℕ) (sentences : List Sentence)
      → Covers text from sentences
      → Finds (¬ Parses engine) (IsPlaced from sentences) (plan_sentences engine registry sentences)
  unfolding plan_sentences
  plan_sentences-IsPlaced text from [] c = (tt, tt)
  plan_sentences-IsPlaced text from (s ∷ sentences) c =
      let size : length s.text ≤ s.end_offset - s.start_offset = omega (
        arith,
        ap length c.3,
        length-take {0} (s.end_offset - s.start_offset) (drop s.start_offset text),
      ) in
      let ordered : s.start_offset ≤ s.end_offset = omega (arith, c.1) in
      >>=-Finds (¬ Parses engine) (AddsPlaced s) (IsPlaced from (s ∷ sentences))
        (resolve_sentence engine registry s) _ (resolve_sentence_sound s size ordered)
        (λ r placed.
          >>=-Finds (¬ Parses engine) (IsPlaced s.end_offset sentences)
            (IsPlaced from (s ∷ sentences)) (plan_sentences engine registry sentences) _
            (plan_sentences-IsPlaced text s.end_offset sentences c.5)
            (λ rest behind.
              add_resolved-IsPlaced from s sentences r rest c.0 ordered placed behind))

  -- If the regular expression engine behaves as documented, planning a block ends: it throws only if an
  -- author's `parse` does, and otherwise its steps stand in its text in order and without overlap, and
  -- each lies in one of the sentences.
  pub plan_block-IsPlaced :
      (text : Text)
      → Finds
          (¬ Parses engine)
          (IsPlaced 0 (split_sentences text))
          (plan_block engine registry text)
  unfolding plan_block
  plan_block-IsPlaced text =
      plan_sentences-IsPlaced text 0 (split_sentences text) (split_sentences-Covers text)
