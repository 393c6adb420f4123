-- ===== src/Expressions/Rendering.antt =====
-- Rendering an expression with the texts of its own parameters.
use varar.Base.{
  ℕ, zero, suc, ◌+◌, ◌-◌, ◌≤◌, List, [], ◌∷◌, ◌++◌, append-nil, Option, none, some, ◌≡◌, refl, ap,
  sym, subst, ◌∙◌, arith, length, take, drop, drop-drop, Bool-cases, inl, inr, ◌↔◌,
}
use varar.Text.{Text, slice}
use varar.Expressions.{
  too_few, too_many, no_expression, param_names, NodeType, text_node, parameter_node, other_node,
  Node, ExpressionSegment, literal, param, opaque, is_text, start_of, non_literal_at,
  non_literal_segment, flush, segments_of, Rendered, rendered, prepend, render_segments,
  render_expression, expression_segments,
}

-- The nodes follow each other without a gap, from one offset to another.
abbrev pub AreAdjacent : ℕ → List Node → ℕ → Type 0
AreAdjacent from [] to = from ≡ to
AreAdjacent from (n ∷ nodes) to =
    (n.start ≡ from) × (n.start ≤ n.stop) × AreAdjacent n.stop nodes to

-- The texts of the parameters in the expression, with their braces.
abbrev pub own_values : Text → List ExpressionSegment → List Text
own_values source [] = []
own_values source (param name start stop ∷ segs) = slice source start stop ∷ own_values source segs
own_values source (_ ∷ segs) = own_values source segs

take-none : (n : ℕ) → take {A = ℕ} n [] ≡ []
take-none zero = refl
take-none (suc n) = refl

take-append : (a b : ℕ) (s : Text) → take a s ++ take b (drop a s) ≡ take (a + b) s
take-append zero b s = let e : 0 + b ≡ b = omega arith in rw e refl
take-append (suc a) b [] = take-none b ∙ sym (take-none (suc a + b))
take-append (suc a) b (c ∷ s) =
    let e : suc a + b ≡ suc (a + b) = omega arith in rw e (ap (λ r. c ∷ r) (take-append a b s))

slice-append : (s : Text) (a b c : ℕ) → a ≤ b → b ≤ c → slice s a b ++ slice s b c ≡ slice s a c
slice-append s a b c h k =
    let front : a + (b - a) ≡ b = omega arith in
    let whole : (b - a) + (c - b) ≡ c - a = omega arith in
    ap (λ r. slice s a b ++ take (c - b) r) (sym (drop-drop (b - a) a s ∙ ap (λ n. drop n s) front))
    ∙ take-append (b - a) (c - b) (drop a s)
    ∙ ap (λ n. take n (drop a s)) whole

whole : (s : Text) → slice s 0 (length s) ≡ s
whole s = let e : length s - 0 ≡ length s = omega arith in ap (λ n. take n s) e ∙ take_all s
  where
    take_all : (s : Text) → take (length s) s ≡ s
    take_all [] = refl
    take_all (c ∷ s) = ap (λ r. c ∷ r) (take_all s)

module _ (source : Text) where
  -- The text from `from` on is what the segments show.
  abbrev Shows : ℕ → List ExpressionSegment → Type 0
  Shows from segs =
      render_segments segs (own_values source segs) ≡ rendered (slice source from (length source))

  -- the literal that is open ends where the next node starts
  abbrev Opens : ℕ → ℕ → Option (ℕ × ℕ) → Type 0
  Opens start from none = start ≡ from
  Opens start from (some (a, b)) = (a ≡ start) × (b ≡ from) × (start ≤ from)

  AreAdjacent-le : (from to : ℕ) (nodes : List Node) → AreAdjacent from nodes to → from ≤ to
  AreAdjacent-le from to [] h = omega arith
  AreAdjacent-le from to (n ∷ nodes) h = omega (arith, AreAdjacent-le n.stop to nodes h.2, h.0, h.1)

  -- a segment in front
  prepend-slice :
      (a b : ℕ) (r : Rendered)
      → a ≤ b
      → b ≤ length source
      → r ≡ rendered (slice source b (length source))
      → prepend (slice source a b) r ≡ rendered (slice source a (length source))
  prepend-slice a b r h k e =
      ap (prepend (slice source a b)) e ∙ ap rendered (slice-append source a b (length source) h k)

  -- nothing is left at the end
  nothing : (from : ℕ) → from ≡ length source → Shows from []
  unfolding render_segments
  nothing from e =
      let none_left : length source - from ≡ 0 = omega (arith, e) in
      ap rendered (sym (ap (λ n. take n (drop from source)) none_left))

  flush-Shows :
      (start from : ℕ) (opened : Option (ℕ × ℕ)) (segs : List ExpressionSegment)
      → Opens start from opened
      → from ≤ length source
      → Shows from segs
      → Shows start (flush source opened ++ segs)
  unfolding render_segments
  flush-Shows start from none segs o l h = subst (λ n. Shows n segs) (sym o) h
  flush-Shows start from (some (a, b)) segs (p, q, k) l h =
      let r : Rendered = render_segments segs (own_values source segs) in
      ap (λ x. prepend (slice source x b) r) p
      ∙ ap (λ x. prepend (slice source start x) r) q
      ∙ prepend-slice start from r k l h

  non_literal_at-Shows :
      (kind : NodeType) (a b : ℕ) (segs : List ExpressionSegment)
      → a ≤ b
      → b ≤ length source
      → Shows b segs
      → Shows a (non_literal_at source kind a b ∷ segs)
  unfolding render_segments non_literal_at
  non_literal_at-Shows text_node a b segs h l s = prepend-slice a b _ h l s
  non_literal_at-Shows parameter_node a b segs h l s = prepend-slice a b _ h l s
  non_literal_at-Shows other_node a b segs h l s = prepend-slice a b _ h l s

  Opens-longer :
      (start from stop : ℕ) (opened : Option (ℕ × ℕ))
      → Opens start from opened
      → from ≤ stop
      → Opens start stop (some (start_of opened from, stop))
  Opens-longer start from stop none o h = (sym o, refl, omega arith)
  Opens-longer start from stop (some (a, b)) (p, q, k) h = (p, refl, omega arith)

  segments_of-Shows :
      (nodes : List Node) (start from : ℕ) (opened : Option (ℕ × ℕ))
      → Opens start from opened
      → AreAdjacent from nodes (length source)
      → Shows start (segments_of source opened nodes)
  unfolding segments_of
  segments_of-Shows [] start from opened o h =
      subst (Shows start) (append-nil (flush source opened))
        (flush-Shows start from opened [] o (omega (arith, h)) (nothing from h))
  segments_of-Shows (n ∷ nodes) start from opened o (p, k, h) = elim (Bool-cases (is_text n.kind)) [
    | inl e ↦ rw e (
        segments_of-Shows nodes start n.stop (some (start_of opened n.start, n.stop))
          (subst (λ x. Opens start n.stop (some (start_of opened x, n.stop))) (sym p)
            (Opens-longer start from n.stop opened o (omega (arith, p, k))))
          h)
    | inr e ↦ rw e (
        flush-Shows start from opened _ o
          (omega (arith, AreAdjacent-le n.stop (length source) nodes h, p, k))
          (subst (λ x. Shows x (non_literal_segment source n ∷ segments_of source none nodes)) p
            (non_literal_at-Shows n.kind n.start n.stop _ k
              (AreAdjacent-le n.stop (length source) nodes h)
              (segments_of-Shows nodes n.stop n.stop none refl h))))
  ]

-- Rendering an expression with the texts of its own parameters gives the expression, if the nodes of the
-- expression library follow each other from its start to its end.
pub render_expression_own :
    (nodes_of : Text → Option (List Node)) (expression : Text) (nodes : List Node)
    → nodes_of expression ≡ some nodes
    → AreAdjacent 0 nodes (length expression)
    → render_expression nodes_of expression
        (own_values expression (segments_of expression none nodes))
      ≡ rendered expression
unfolding render_expression expression_segments
render_expression_own nodes_of expression nodes e h =
    rw (render_expression, expression_segments, e)
      (segments_of-Shows expression nodes 0 0 none refl h ∙ ap rendered (whole expression))

rendered-prepend : (s t : Text) (r : Rendered) → r ≡ rendered t → prepend s r ≡ rendered (s ++ t)
rendered-prepend s t r e = ap (prepend s) e

prepend-eq-rendered :
    (s t : Text) (r : Rendered) → prepend s r ≡ rendered t → (u : Text) × (r ≡ rendered u)
prepend-eq-rendered s t (rendered u) e = (u, refl)
prepend-eq-rendered s t too_few e = absurd (cc)
prepend-eq-rendered s t too_many e = absurd (cc)
prepend-eq-rendered s t no_expression e = absurd (cc)

enough :
    (segs : List ExpressionSegment) (values : List Text)
    → length values ≡ length (param_names segs)
    → (t : Text) × (render_segments segs values ≡ rendered t)
unfolding render_segments param_names
enough [] [] h = ([], refl)
enough [] (v ∷ values) h = absurd (omega arith)
enough (param name a b ∷ segs) [] h = absurd (omega arith)
enough (param name a b ∷ segs) (v ∷ values) h =
    let (t, e) = enough segs values (omega arith) in (v ++ t, rendered-prepend v t _ e)
enough (literal s a b ∷ segs) values h =
    let (t, e) = enough segs values h in (s ++ t, rendered-prepend s t _ e)
enough (opaque s a b ∷ segs) values h =
    let (t, e) = enough segs values h in (s ++ t, rendered-prepend s t _ e)

counted :
    (segs : List ExpressionSegment) (values : List Text) (t : Text)
    → render_segments segs values ≡ rendered t
    → length values ≡ length (param_names segs)
unfolding render_segments param_names
counted [] [] t e = refl
counted [] (v ∷ values) t e = absurd (cc)
counted (param name a b ∷ segs) [] t e = absurd (cc)
counted (param name a b ∷ segs) (v ∷ values) t e =
    let (u, q) = prepend-eq-rendered v t _ e in omega (arith, counted segs values u q)
counted (literal s a b ∷ segs) values t e =
    let (u, q) = prepend-eq-rendered s t _ e in counted segs values u q
counted (opaque s a b ∷ segs) values t e =
    let (u, q) = prepend-eq-rendered s t _ e in counted segs values u q

-- An expression is rendered exactly when there are as many values as parameters; every other number of
-- values is an error.
pub render_segments_iff :
    (segs : List ExpressionSegment) (values : List Text)
    → ((t : Text) × (render_segments segs values ≡ rendered t))
      ↔ (length values ≡ length (param_names segs))
render_segments_iff segs values = ((λ r. counted segs values r.0 r.1), enough segs values)
