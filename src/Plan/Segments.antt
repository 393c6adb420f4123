-- ===== src/Plan/Segments.antt =====
-- Where the blocks have segment maps, their offsets are lifted.
use varar.Base.{
  ℕ, Bool, true, false, List, [], ◌∷◌, Option, none, some, ◌≡◌, refl, ap, ◌∙◌, ◌+◌, length, All,
  Option-cases, inl, inr,
}
use varar.Text.{Text}
use varar.Ast.{SegmentOffset, Block, Table}
use varar.Unicode.{Unicode}
use varar.Matcher.{Hit, ParamSpan, AmbiguityCollision}
use varar.Plan.Planned.{planned, lifted, each}
use varar.Plan.Lifting.{block_text, lift_from_segment_map, lift_span}
use varar.Plan.Headers.{
  Entry, Bound, header_span, bind_table, detect_header_bound, word_offsets, last_step, table_of,
}
use varar.Plan.Candidates.{lift_param, report_collision, step_of, steps_of}
use varar.Plan.Returning.{Ends, >>=-Returns, Returns-map, each-Returns, All-of}

-- A block with a text has a segment map that is not empty.
abbrev pub HasSegments : Block → Type 0
HasSegments b = (text : Text) → block_text b ≡ some (text, []) → ⊥

lift_from_segment_map-Ends :
    (source : Text) (segment_map : List SegmentOffset) (i j : ℕ)
    → ((segment_map ≡ []) → ⊥)
    → Ends (lifted (lift_from_segment_map source segment_map i j))
unfolding lift_from_segment_map
lift_from_segment_map-Ends source [] i j h = h refl
lift_from_segment_map-Ends source (s ∷ segments) i j h = tt

pub lift_span-Ends :
    (source : Text) (b : Block) (i j : ℕ) → HasSegments b → Ends (lifted (lift_span source b i j))
unfolding lift_span
lift_span-Ends source b i j h = elim (Option-cases (block_text b)) [
  | inl e ↦ rw (lift_span, e) tt
  | inr ((text, m), e) ↦
      rw (lift_span, e)
        (lift_from_segment_map-Ends source m i j (λ q. h text (e ∙ ap (λ x. some (text, x)) q)))
]

module _ (source : Text) (b : Block) (text : Text) (h : HasSegments b) where
  pub report_collision-Ends : (c : AmbiguityCollision) → Ends (report_collision source b text c)
  unfolding report_collision
  report_collision-Ends c =
      >>=-Returns (λ _. Unit) (λ _. Unit) (lifted (lift_span source b c.match_start c.match_end)) _
        (lift_span-Ends source b c.match_start c.match_end h) (λ s u. tt)

  params-Ends : (ps : List ParamSpan) → Ends (each (lift_param source b text) ps)
  params-Ends ps =
      Returns-map (All (λ _. Unit)) (λ _. Unit) (each (lift_param source b text) ps) (λ a x. tt)
        (each-Returns (λ _. Unit) (lift_param source b text) ps
          (All-of _ ps (λ p. lift_span-Ends source b p.start p.end h)))

  step_of-Ends : (hit : Hit) → Ends (step_of source b text hit)
  unfolding step_of
  step_of-Ends hit =
      >>=-Returns (λ _. Unit) (λ _. Unit)
        (lifted (lift_span source b hit.match_start hit.match_end)) _
        (lift_span-Ends source b hit.match_start hit.match_end h)
        (λ s u.
          >>=-Returns (λ _. Unit) (λ _. Unit) (each (lift_param source b text) hit.param_spans) _
            (params-Ends hit.param_spans)
            (λ ps v.
              >>=-Returns (λ _. Unit) (λ _. Unit)
                (each (lift_param source b text) hit.param_inner_spans) _
                (params-Ends hit.param_inner_spans) (λ is w. tt)))

  pub steps_of-Ends : (had : Bool) (hits : List Hit) → Ends (steps_of source b text had hits)
  unfolding steps_of
  steps_of-Ends true hits = tt
  steps_of-Ends false hits =
      Returns-map (All (λ _. Unit)) (λ _. Unit) (each (step_of source b text) hits) (λ a x. tt)
        (each-Returns (λ _. Unit) (step_of source b text) hits (All-of _ hits step_of-Ends))

abbrev pub HaveSegments : List Entry → Type 0
HaveSegments entries = All (λ e. HasSegments e.block) entries

module _ (unicode : Unicode) where
  header_spans-Ends :
      (source : Text) (above : Block) (offsets : List (ℕ × Text))
      → HasSegments above
      → Ends (each (header_span unicode source above) offsets)
  header_spans-Ends source above offsets h =
      Returns-map (All (λ _. Unit)) (λ _. Unit) (each (header_span unicode source above) offsets)
        (λ a x. tt)
        (each-Returns (λ _. Unit) (header_span unicode source above) offsets
          (All-of _ offsets (λ p. lift_span-Ends source above p.0 (p.0 + length p.1) h)))

  bind_table-Ends :
      (source : Text) (above : Entry) (t : Table)
      → HasSegments above.block
      → Ends (bind_table unicode source above t)
  unfolding bind_table
  bind_table-Ends source above t h = elim (Option-cases (block_text above.block)) [
    | inl e ↦ rw (bind_table, e) tt
    | inr ((text, m), e) ↦ elim (Option-cases (last_step above.steps)) [
      | inl f ↦ rw (bind_table, e, f) tt
      | inr (step, f) ↦ elim (Option-cases (word_offsets unicode text t.header.cells)) [
        | inl g ↦ rw (bind_table, e, f, g) tt
        | inr (offsets, g) ↦
            rw (bind_table, e, f, g)
              (>>=-Returns (λ _. Unit) (λ _. Unit)
                (each (header_span unicode source above.block) offsets) _
                (header_spans-Ends source above.block offsets h) (λ s u. tt))
      ]
    ]
  ]

  pub detect_header_bound-Ends :
      (source : Text) (above : Entry) (entries : List Entry)
      → HasSegments above.block
      → HaveSegments entries
      → Ends (detect_header_bound unicode source above entries)
  unfolding detect_header_bound
  detect_header_bound-Ends source above [] h hs = tt
  detect_header_bound-Ends source above (here ∷ entries) h (k, hs) =
      let rest = detect_header_bound-Ends source here entries k hs in
      elim (Option-cases (table_of unicode here.block)) [
        | inl e ↦ rw (detect_header_bound, e) rest
        | inr (t, e) ↦
            rw (detect_header_bound, e)
              (>>=-Returns (λ _. Unit) (λ _. Unit) (bind_table unicode source above t) _
                (bind_table-Ends source above t h) (λ b u. otherwise rest b))
      ]
    where
      otherwise :
          Ends (detect_header_bound unicode source here entries)
          → (b : Option Bound)
          → Ends (elim b [
            | some bound ↦ planned (some bound) []
            | none ↦ detect_header_bound unicode source here entries
          ])
      otherwise rest none = rest
      otherwise rest (some bound) = tt
