-- ===== src/Scanner/Exact.antt =====
-- What the segment maps of scanned blocks lead to.
use varar.Base.{
  ℕ, zero, suc, ◌+◌, ◌-◌, ◌≤◌, ◌<◌, true, false, List, [], ◌∷◌, ◌++◌, map, some, ◌≡◌, ◌≢◌, refl, ap,
  sym, subst, ◌∙◌, arith, length, inl, inr, ◌⊎◌, if◌then◌else◌, leb, get_elem?, All,
}
use varar.Text.{Text, newline, join_on}
use varar.Ast.{SegmentOffset}
use varar.Plan.Lifting.{best_segment, lift_segment_offset}
use varar.Scanner.{RawLine}
use varar.Scanner.Blocks.{text_start, segments_from, segment_text}
use varar.Scanner.Markers.{EndsIn, StandsIn, text_start-get_elem?}

module _ (source : Text) where
  -- Every character of the text but a newline is the one of the source at the lifted offset.
  abbrev pub IsExact : Text × List SegmentOffset → Type 0
  IsExact (text, segment_map) =
      (k c : ℕ)
      → get_elem? text k ≡ some c
      → c ≢ newline
      → (at : ℕ) × (lift_segment_offset segment_map k ≡ some at) × (get_elem? source at ≡ some c)

  -- a segment map with one entry
  pub one_segment :
      (text : Text) (at : ℕ)
      → ((k c : ℕ) → get_elem? text k ≡ some c → get_elem? source (at + k) ≡ some c)
      → IsExact (text, record { text_offset = 0; source_offset = at } ∷ [])
  unfolding lift_segment_offset best_segment
  one_segment text at h k c e n =
      let same : at + k - 0 ≡ at + k = omega arith in (at + k, (ground arith), h k c e)

  -- The lines of a quote stand in the source, each with its segment at its end.
  abbrev pub AreQuoted : List (RawLine × Text) → Type 0
  AreQuoted quote = All (λ q. StandsIn source q.0 × EndsIn q.0.text q.1) quote

  -- The segments that start behind the offset are not taken.
  best_segment-behind :
      (k at : ℕ) (best : SegmentOffset) (quote : List (RawLine × Text))
      → k < at
      → best_segment k best (segments_from at quote) ≡ best
  unfolding best_segment segments_from
  best_segment-behind k at best [] h = refl
  best_segment-behind k at best ((ln, segment) ∷ quote) h =
      let e : leb at k ≡ false = ground arith in
      ap
        (λ b.
          best_segment k
            (if b then record { text_offset = at; source_offset = text_start ln segment } else best)
            (segments_from (suc (at + length segment)) quote))
        e
      ∙ best_segment-behind k (suc (at + length segment)) best quote (omega arith)

  -- An entry that does not start behind the offset is taken.
  best_segment-taken :
      (k : ℕ) (best entry : SegmentOffset) (segments : List SegmentOffset)
      → entry.text_offset ≤ k
      → best_segment k best (entry ∷ segments) ≡ best_segment k entry segments
  unfolding best_segment
  best_segment-taken k best entry segments h =
      let e : leb entry.text_offset k ≡ true = ground arith in
      ap (λ b. best_segment k (if b then entry else best) segments) e

  pub length-get_elem? : (s : Text) (k c : ℕ) → get_elem? s k ≡ some c → k < length s
  length-get_elem? [] k c e = absurd (cc)
  length-get_elem? (d ∷ s) zero c e = omega arith
  length-get_elem? (d ∷ s) (suc k) c e = omega (arith, length-get_elem? s k c e)

  -- a character in the first text, at the separator, or behind it
  get_elem?-parted :
      (s r : Text) (k c : ℕ)
      → get_elem? (s ++ newline ∷ r) k ≡ some c
      → c ≢ newline
      → (get_elem? s k ≡ some c) ⊎ ((j : ℕ) × (k ≡ suc (length s + j)) × (get_elem? r j ≡ some c))
  get_elem?-parted [] r zero c e n = absurd (n (ground arith))
  get_elem?-parted [] r (suc k) c e n = inr (k, omega arith, e)
  get_elem?-parted (d ∷ s) r zero c e n = inl e
  get_elem?-parted (d ∷ s) r (suc k) c e n = elim (get_elem?-parted s r k c e n) [
    | inl h ↦ inl h
    | inr (j, h, g) ↦ inr (j, omega arith, g)
  ]

  -- the lifted offset, from a character of the joined text on
  abbrev LiftsTo : ℕ → ℕ → SegmentOffset → List SegmentOffset → Type 0
  LiftsTo k c best segments =
      let b = best_segment k best segments in
      (get_elem? source (b.source_offset + k - b.text_offset) ≡ some c)

  quote-LiftsTo :
      (at : ℕ) (quote : List (RawLine × Text)) (best : SegmentOffset) (k c : ℕ)
      → AreQuoted quote
      → get_elem? (join_on newline (map segment_text quote)) k ≡ some c
      → c ≢ newline
      → LiftsTo (at + k) c best (segments_from at quote)
  unfolding best_segment segments_from join_on
  quote-LiftsTo at [] best k c h e n = absurd (cc)
  quote-LiftsTo at ((ln, t) ∷ []) best k c ((i, j), h) e n =
      let b : leb at (at + k) ≡ true = ground arith in
      let sum : text_start ln t + (at + k) - at ≡ text_start ln t + k = omega arith in
      rw b (rw sum (text_start-get_elem? source ln t k c j i e))
  quote-LiftsTo at ((ln, t) ∷ q ∷ quote) best k c ((i, j), h) e n =
      let first : SegmentOffset = record { text_offset = at; source_offset = text_start ln t } in
      let rest : List SegmentOffset = segments_from (suc (at + length t)) (q ∷ quote) in
      let taken : best_segment (at + k) best (first ∷ rest) ≡ best_segment (at + k) first rest =
        best_segment-taken (at + k) best first rest (omega arith) in
      subst (λ x. get_elem? source (x.source_offset + (at + k) - x.text_offset) ≡ some c)
        (sym taken)
        (elim (get_elem?-parted t (join_on newline (map segment_text (q ∷ quote))) k c e n) [
          | inl g ↦
              let sum : text_start ln t + (at + k) - at ≡ text_start ln t + k = omega arith in
              subst (λ x. get_elem? source (x.source_offset + (at + k) - x.text_offset) ≡ some c)
                (sym (
                  best_segment-behind (at + k) (suc (at + length t)) first (q ∷ quote)
                    (omega (arith, length-get_elem? t k c g))))
                (rw sum (text_start-get_elem? source ln t k c j i g))
          | inr (m, p, g) ↦
              let sum : at + k ≡ suc (at + length t) + m = omega arith in
              subst (λ x. LiftsTo x c first rest) (sym sum)
                (quote-LiftsTo (suc (at + length t)) (q ∷ quote) first m c h g n)
        ])

  -- the whole text and segment map of a quote
  pub quote-IsExact :
      (quote : List (RawLine × Text))
      → AreQuoted quote
      → IsExact (join_on newline (map segment_text quote), segments_from 0 quote)
  unfolding lift_segment_offset segments_from join_on
  quote-IsExact [] h k c e n = absurd (cc)
  quote-IsExact ((ln, t) ∷ quote) h k c e n =
      let zeroth : 0 + k ≡ k = omega arith in
      (
        _,
        refl,
        subst
            (λ x.
              LiftsTo x c (record { text_offset = 0; source_offset = text_start ln t })
                (segments_from 0 ((ln, t) ∷ quote)))
            zeroth (quote-LiftsTo 0 ((ln, t) ∷ quote) _ k c h e n),
      )
