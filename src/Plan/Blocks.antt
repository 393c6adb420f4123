-- ===== src/Plan/Blocks.antt =====
-- `planBlock`: the matches in a block's text, sentence by sentence, at their offsets in the block.
use varar.Base.{ℕ, ◌+◌, List, [], ◌∷◌, ◌++◌, map}
use varar.Text.{Text}
use varar.Sentences.{Sentence, split_sentences}
use varar.Registry.{Registry}
use varar.Matcher.{Hit, ParamSpan, AmbiguityCollision, ResolvedSteps, ok, ambiguous, resolve_hits}
use varar.Matcher.Search.{Engine, find_hits}
use varar.Matcher.Searched.{Searched, searched, ◌>>=◌}

pub record BlockPlan : Type 0 where
  pub steps : List Hit
  pub ambiguities : List AmbiguityCollision

abbrev pub shift_span : ℕ → ParamSpan → ParamSpan
shift_span by p = record { start = p.start + by; end = p.end + by }

abbrev pub shift_hit : ℕ → Hit → Hit
shift_hit by h = record h {
  match_start = h.match_start + by;
  match_end = h.match_end + by;
  param_spans = map (shift_span by) h.param_spans;
  param_inner_spans = map (shift_span by) h.param_inner_spans;
}

abbrev pub add_resolved : ResolvedSteps → BlockPlan → BlockPlan
add_resolved (ok steps) rest = record rest { steps = steps ++ rest.steps }
add_resolved (ambiguous collisions) rest = record rest {
  ambiguities = collisions ++ rest.ambiguities;
}

module _ (engine : Engine) (registry : Registry) where
  unfoldable pub resolve_sentence : Sentence → Searched ResolvedSteps
  unfolding find_hits resolve_hits
  resolve_sentence s = do
    hits ← find_hits engine registry s.text
    searched (resolve_hits (map (shift_hit s.start_offset) hits))

  unfoldable pub plan_sentences : List Sentence → Searched BlockPlan
  unfolding resolve_sentence
  plan_sentences [] = searched (record { steps = []; ambiguities = [] })
  plan_sentences (s ∷ sentences) = do
    resolved ← resolve_sentence s
    rest ← plan_sentences sentences
    searched (add_resolved resolved rest)

  unfoldable pub plan_block : Text → Searched BlockPlan
  unfolding split_sentences plan_sentences
  plan_block text = plan_sentences (split_sentences text)
