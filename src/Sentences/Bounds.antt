-- ===== src/Sentences/Bounds.antt =====
-- The sentences as ranges of the block's text.
use varar.Base.{
  ℕ, ◌+◌, ◌-◌, ◌≤◌, ◌<◌, Bool, true, false, List, [], ◌∷◌, ◌++◌, none, some, ◌≡◌, refl, ap, sym,
  ◌∙◌, ◌⊎◌, inl, inr, arith, leb, ◌==◌, length, append-nil, get_elem?, take, drop, Bool-cases,
  length-take, length-drop, take-take, drop-take, drop-drop, get_elem?-drop, get_elem?-take,
}
use varar.Text.{Text, is_space, leading, trimmed_length, trim, slice}
use varar.Text.Laws.{
  leading-le-length, trimmed_length-le-length, leading-space, trimmed_length-space,
}
use varar.Sentences.{Sentence, segment, round, split_from, split_sentences, with_skip, skip_from}

-- Between two offsets there is white space only.
abbrev pub IsWhite : Text → ℕ → ℕ → Type 0
IsWhite text a b = (k c : ℕ) → a ≤ k → k < b → get_elem? text k ≡ some c → is_space c ≡ true

-- The sentences, read from offset `from` on: each is a non-empty range of the text, they do not
-- overlap, and what lies outside of them is white space.
abbrev pub Covers : Text → ℕ → List Sentence → Type 0
Covers text from [] = IsWhite text from (length text)
Covers text from (s ∷ rest) =
    (from ≤ s.start_offset)
    × (s.start_offset < s.end_offset)
    × (s.end_offset ≤ length text)
    × (s.text ≡ slice text s.start_offset s.end_offset)
    × IsWhite text from s.start_offset
    × Covers text s.end_offset rest

IsWhite-join : (text : Text) (a b c : ℕ) → IsWhite text a b → IsWhite text b c → IsWhite text a c
IsWhite-join text a b c h k i d p q e = ground (arith, h i d, k i d)

Covers-from :
    (text : Text) (a b : ℕ) (rest : List Sentence)
    → a ≤ b
    → IsWhite text a b
    → Covers text b rest
    → Covers text a rest
Covers-from text a b [] h w c = IsWhite-join text a b _ w c
Covers-from text a b (s ∷ rest) h w c =
    (omega arith, c.1, c.2, c.3, IsWhite-join text a b _ w c.4, c.5)

module _ (text : Text) (start end : ℕ) (inside : end ≤ length text) (ordered : start ≤ end) where
  abbrev raw : Text
  raw = slice text start end

  abbrev trimmed : Text
  trimmed = trim raw

  abbrev from : ℕ
  from = start + leading raw

  length-raw : length raw ≡ end - start
  length-raw =
      omega (arith, length-take {0} (end - start) (drop start text), length-drop {0} start text)

  length-trimmed : length trimmed ≡ trimmed_length (drop (leading raw) raw)
  length-trimmed = omega (
    arith,
    length-take {0} (trimmed_length (drop (leading raw) raw)) (drop (leading raw) raw),
    trimmed_length-le-length (drop (leading raw) raw),
  )

  fits : from + length trimmed ≤ end
  fits = omega (
    arith,
    length-raw,
    length-trimmed,
    leading-le-length raw,
    trimmed_length-le-length (drop (leading raw) raw),
    length-drop {0} (leading raw) raw,
  )

  get_elem?-raw : (k : ℕ) → start + k < end → get_elem? raw k ≡ get_elem? text (start + k)
  get_elem?-raw k h =
      get_elem?-take (end - start) k (drop start text) (omega arith) ∙ get_elem?-drop start k text

  IsWhite-before : IsWhite text start from
  IsWhite-before k c a b e =
      let i : start + (k - start) ≡ k = omega arith in
      let small : start + (k - start) < end = omega (arith, fits) in
      leading-space raw (k - start) c (omega arith) (get_elem?-raw (k - start) small ∙ rw i e)

  IsWhite-after : IsWhite text (from + length trimmed) end
  IsWhite-after k c a b e =
      let i : start + (leading raw + (k - from)) ≡ k = omega arith in
      trimmed_length-space (drop (leading raw) raw) (k - from) c (omega (arith, length-trimmed)) (
        get_elem?-drop (leading raw) (k - from) raw
        ∙ get_elem?-raw (leading raw + (k - from)) (omega arith)
        ∙ rw i e)

  text-trimmed : trimmed ≡ slice text from (from + length trimmed)
  text-trimmed =
      let count = trimmed_length (drop (leading raw) raw) in
      let left = end - start - leading raw in
      let same : from + length trimmed - from ≡ count = omega (arith, length-trimmed) in
      ap (take count) (
        drop-take (leading raw) (end - start) (drop start text)
        ∙ ap (take left) (drop-drop (leading raw) start text))
      ∙ take-take count left (drop from text) (
          omega (
            arith,
            length-raw,
            leading-le-length raw,
            trimmed_length-le-length (drop (leading raw) raw),
            length-drop {0} (leading raw) raw,
          ))
      ∙ rw same

  segment-Covers :
      (rest : List Sentence)
      → Covers text end rest
      → Covers text start (segment text start end ++ rest)
  unfolding segment
  segment-Covers rest c = elim (Bool-cases (leb end start)) [
    | inl e ↦ rw e (Covers-from text start end rest ordered (λ k d p q. absurd (ground arith)) c)
    | inr e ↦ rw e (elim (Bool-cases (length trimmed == 0)) [
      | inl z ↦ rw z (
          Covers-from text start end rest ordered
            (IsWhite-join text start from end IsWhite-before
              (λ k d p q. IsWhite-after k d (ground arith) q))
            c)
      | inr z ↦ rw z (
        omega arith,
        ground arith,
        omega (arith, fits),
        text-trimmed,
        IsWhite-before,
        Covers-from text (from + length trimmed) end rest fits IsWhite-after c,
      )
    ])
  ]

abbrev chars : List (ℕ × Bool) → Text
chars [] = []
chars ((c, skipped) ∷ rest) = c ∷ chars rest

chars-with_skip : (text : Text) (skip : List Bool) → chars (with_skip text skip) ≡ text
unfolding with_skip
chars-with_skip [] skip = refl
chars-with_skip (c ∷ text) [] = ap (◌∷◌ c) (chars-with_skip text [])
chars-with_skip (c ∷ text) (k ∷ skip) = ap (◌∷◌ c) (chars-with_skip text skip)

-- A round moves over white space, appends nothing, or ends a sentence behind the character.
round-cases :
    (text : Text) (c : ℕ) (skipped : Bool) (i start : ℕ) (gap : Bool)
    → ((round text c skipped i start gap ≡ record { emitted = []; start = i + 1; gap = true })
        × (gap ≡ true)
        × (is_space c ≡ true))
      ⊎ (round text c skipped i start gap ≡ record { emitted = []; start = start; gap = false })
      ⊎ (round text c skipped i start gap
          ≡ record { emitted = segment text start (i + 1); start = i + 1; gap = true })
unfolding round is_space
round-cases text c skipped i start gap = ground arith

module _ (text : Text) where
  drop-suc : (i c : ℕ) (rest : Text) → drop i text ≡ c ∷ rest → drop (i + 1) text ≡ rest
  drop-suc i c rest h = sym (drop-drop 1 i text) ∙ ap (drop 1) h

  get_elem?-of_drop : (i c : ℕ) (rest : Text) → drop i text ≡ c ∷ rest → get_elem? text i ≡ some c
  get_elem?-of_drop i c rest h =
      let e : i + 0 ≡ i = omega arith in
      rw e at (sym (get_elem?-drop i 0 text) ∙ ap (λ s. get_elem? s 0) h)

  IsWhite-one : (i c : ℕ) → get_elem? text i ≡ some c → is_space c ≡ true → IsWhite text i (i + 1)
  IsWhite-one i c h w k d p q e = let same : k ≡ i = omega arith in ground (arith, same)

  split_from-Covers :
      (rest : List (ℕ × Bool)) (i start : ℕ) (gap : Bool)
      → drop i text ≡ chars rest
      → i ≤ length text
      → start ≤ i
      → (gap ≡ true → start ≡ i)
      → Covers text start (split_from text rest i start gap)
  unfolding split_from
  split_from-Covers [] i start gap d l h g = rw append-nil at (
      segment-Covers text start (length text) (omega arith) (omega arith) []
        (λ k c p q. absurd (omega arith)))
  split_from-Covers ((c, skipped) ∷ rest) i start gap d l h g =
      let later = drop-suc i c (chars rest) d in
      let room : i + 1 ≤ length text = omega (arith, ap (length {0}) d, length-drop {0} i text) in
      elim (round-cases text c skipped i start gap) [
        | inl (r, on, w) ↦ rw r (
            Covers-from text start (i + 1) _ (omega arith)
              (IsWhite-join text start i (i + 1) (λ k e p q. absurd (omega (arith, g on)))
                (IsWhite-one i c (get_elem?-of_drop i c (chars rest) d) w))
              (split_from-Covers rest (i + 1) (i + 1) true later room (omega arith) (λ _. refl)))
        | inr (inl r) ↦
            rw r (split_from-Covers rest (i + 1) start false later room (omega arith) (λ e. cc))
        | inr (inr r) ↦ rw r (
            segment-Covers text start (i + 1) room (omega arith) _
              (split_from-Covers rest (i + 1) (i + 1) true later room (omega arith) (λ _. refl)))
      ]

-- The sentences of a text are non-empty ranges of it, in order and without overlap, and every
-- character outside of them is white space.
pub split_sentences-Covers : (text : Text) → Covers text 0 (split_sentences text)
unfolding split_sentences
split_sentences-Covers text =
    split_from-Covers text (with_skip text (skip_from none text)) 0 0 false
      (sym (chars-with_skip text (skip_from none text))) (omega arith) (omega arith) (λ e. cc)
