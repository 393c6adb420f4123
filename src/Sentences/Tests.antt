-- ===== src/Sentences/Tests.antt =====
-- Runs of sentences.ts, and its theorem at a concrete text.
use varar.Base.{List, [], ◌∷◌, map, ◌≡◌, refl}
use varar.Text.{Text, codes}
use varar.Sentences.{Sentence, split_sentences}
use varar.Sentences.Bounds.{Covers, split_sentences-Covers}

abbrev texts : List Sentence → List Text
texts = map (λ (s : Sentence). s.text)

prose :
    texts (split_sentences (codes "I greet \"Bob! Hi.\" now.  It costs 3.5, e.g. a lot\n"))
    ≡ codes "I greet \"Bob! Hi.\" now." ∷ codes "It costs 3.5, e.g. a lot" ∷ []
unfolding split_sentences
prose = refl

split_sentences-Covers_example : Covers (codes "A b. C!") 0 (split_sentences (codes "A b. C!"))
split_sentences-Covers_example = split_sentences-Covers (codes "A b. C!")
