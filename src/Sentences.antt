-- ===== src/Sentences.antt =====
-- typescript/packages/core/src/sentences.ts: the sentences of a block's text, with their offsets.
pub mod Bounds
mod Tests
use varar.Base.{
  ℕ, zero, suc, ◌+◌, ◌-◌, Bool, true, false, not, ◌&&◌, ◌||◌, List, [], ◌∷◌, ◌++◌, Option, none,
  some, leb, ◌==◌, if◌then◌else◌, any, length, get_elem?, replicate,
}
use varar.Text.{codes, Text, newline, slice, trim, leading, trimmed_length, text_eq}

pub record Sentence : Type 0 where
  pub text : Text
  pub start_offset : ℕ
  pub end_offset : ℕ

abbrev abbreviations : List Text
abbreviations = codes "e.g." ∷ codes "i.e." ∷ codes "etc." ∷ codes "cf." ∷ codes "vs." ∷ []

abbrev is_quote : ℕ → Bool
is_quote c = c == b'`' || c == b'"'

-- whether `indexOf(c)` finds the character in what is left
unfoldable pub contains : ℕ → Text → Bool
contains c [] = false
contains c (d ∷ s) = d == c || contains c s

-- The array `skip`. The inner loop, which marks the characters from an opening quote up to its closing
-- one and moves `j` there, is the state `some quote`; without a closing quote the outer loop breaks.
unfoldable pub skip_from : Option ℕ → Text → List Bool
unfolding contains
skip_from inside [] = []
skip_from none (c ∷ s) =
    let quoted = skip_from (some c) s in
    let plain = skip_from none s in
    if is_quote c
    then (if contains c s then true ∷ quoted else replicate (length (c ∷ s)) false)
    else false ∷ plain
skip_from (some quote) (c ∷ s) = true ∷ skip_from (if c == quote then none else some quote) s

abbrev digit : ℕ → Bool
digit c = leb 0x30 c && leb c 0x39

abbrev lower : ℕ → Bool
lower c = leb 0x61 c && leb c 0x7a

-- A test on a character that may lie outside the text, where `charCodeAt` is NaN.
abbrev holds_at : (ℕ → Bool) → Option ℕ → Bool
holds_at p none = false
holds_at p (some c) = p c

-- the character in front of position `i`
abbrev before : Text → ℕ → Option ℕ
before text zero = none
before text (suc i) = get_elem? text i

unfoldable pub is_inside_number_or_abbrev : Text → ℕ → Bool
unfolding text_eq
is_inside_number_or_abbrev text dot =
    (holds_at digit (before text dot) && holds_at digit (get_elem? text (dot + 1)))
    || any (λ abbrev'. text_eq (slice text (dot + 1 - length abbrev') (dot + 1)) abbrev')
        abbreviations
    || holds_at lower (get_elem? text (dot + 1))

-- What `pushSegment` appends to `out`.
unfoldable pub segment : Text → ℕ → ℕ → List Sentence
unfolding leading
segment text start end =
    let raw = slice text start end in
    let trimmed = trim raw in
    let from = start + leading raw in
    if leb end start
    then []
    else if length trimmed == 0
    then []
    else record { text = trimmed; start_offset = from; end_offset = from + length trimmed } ∷ []

abbrev is_terminator : ℕ → Bool
is_terminator c = c == newline || c == b'.' || c == b'!' || c == b'?'

abbrev is_gap : ℕ → Bool
is_gap c = c == b' ' || c == newline

-- What one round of the main loop appends, and the variables after it. In the state `gap` the loop is
-- in its inner loop, which moves over spaces and newlines, and `segmentStart` moves with it.
pub record Round : Type 0 where
  pub emitted : List Sentence
  pub start : ℕ
  pub gap : Bool

unfoldable pub round : Text → (c : ℕ) (skipped : Bool) (i start : ℕ) (gap : Bool) → Round
round text c skipped i start gap =
    if gap && is_gap c
    then record { emitted = []; start = i + 1; gap = true }
    else if skipped
    then record { emitted = []; start = start; gap = false }
    else if not (is_terminator c)
    then record { emitted = []; start = start; gap = false }
    else if c == b'.' && is_inside_number_or_abbrev text i
    then record { emitted = []; start = start; gap = false }
    else record { emitted = segment text start (i + 1); start = i + 1; gap = true }

-- The rounds from position `i` on, over the characters and their entries of `skip`.
unfoldable pub split_from : Text → List (ℕ × Bool) → (i start : ℕ) (gap : Bool) → List Sentence
unfolding round
split_from text [] i start gap = segment text start (length text)
split_from text ((c, skipped) ∷ rest) i start gap =
    let r = round text c skipped i start gap in
    r.emitted ++ split_from text rest (i + 1) r.start r.gap

unfoldable pub with_skip : Text → List Bool → List (ℕ × Bool)
with_skip [] skip = []
with_skip (c ∷ text) [] = (c, false) ∷ with_skip text []
with_skip (c ∷ text) (k ∷ skip) = (c, k) ∷ with_skip text skip

unfoldable pub split_sentences : Text → List Sentence
unfolding trimmed_length split_from with_skip skip_from is_inside_number_or_abbrev segment
split_sentences text = split_from text (with_skip text (skip_from none text)) 0 0 false
