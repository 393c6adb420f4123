-- ===== src/Expressions.antt =====
-- typescript/packages/core/src/expression-segments.ts: the parts of a step expression, for renaming steps.
pub mod Rendering
mod Tests
use varar.Base.{
  ℕ, zero, suc, ◌+◌, ◌-◌, Bool, true, false, not, ◌&&◌, List, [], ◌∷◌, ◌++◌, map, Option, none,
  some, if◌then◌else◌, length,
}
use varar.Text.{Text, text_eq, codes, slice, starts_with}
use varar.Reference.Links.{ends_with}

pub data NodeType : Type 0 where
  text_node : NodeType
  parameter_node : NodeType
  other_node : NodeType

-- a child of the tree that the expression library makes of an expression
pub record Node : Type 0 where
  pub kind : NodeType
  pub start : ℕ
  pub stop : ℕ

pub data ExpressionSegment : Type 0 where
  literal : Text → (start stop : ℕ) → ExpressionSegment
  param : (name : Text) → (start stop : ℕ) → ExpressionSegment
  opaque : Text → (start stop : ℕ) → ExpressionSegment

-- `slice.slice(1, -1)` of a name in braces
unfoldable pub name_in : Text → Text
unfolding starts_with ends_with
name_in s =
    if starts_with s (codes "{") && ends_with s (codes "}") then slice s 1 (length s - 1) else s

abbrev pub is_text : NodeType → Bool
is_text text_node = true
is_text _ = false

abbrev pub start_of : Option (ℕ × ℕ) → ℕ → ℕ
start_of none n = n
start_of (some (start, stop)) n = start

module _ (source : Text) where
  -- `nonLiteralSegment`
  unfoldable pub non_literal_at : NodeType → (start stop : ℕ) → ExpressionSegment
  unfolding name_in
  non_literal_at parameter_node start stop = param (name_in (slice source start stop)) start stop
  non_literal_at _ start stop = opaque (slice source start stop) start stop

  abbrev pub non_literal_segment : Node → ExpressionSegment
  non_literal_segment node = non_literal_at node.kind node.start node.stop

  -- what `flush` pushes: the literal that is open
  abbrev pub flush : Option (ℕ × ℕ) → List ExpressionSegment
  flush none = []
  flush (some (start, stop)) = literal (slice source start stop) start stop ∷ []

  -- the loop of `childrenToSegments`
  unfoldable pub segments_of : Option (ℕ × ℕ) → List Node → List ExpressionSegment
  unfolding non_literal_at
  segments_of opened [] = flush opened
  segments_of opened (n ∷ nodes) =
      let longer = segments_of (some (start_of opened n.start, n.stop)) nodes in
      let behind = segments_of none nodes in
      if is_text n.kind then longer else flush opened ++ non_literal_segment n ∷ behind

-- The result of `renderExpression`, or its error; the messages are left out.
pub data Rendered : Type 0 where
  rendered : Text → Rendered
  too_few : Rendered
  too_many : Rendered
  no_expression : Rendered

abbrev pub prepend : Text → Rendered → Rendered
prepend s (rendered t) = rendered (s ++ t)
prepend s too_few = too_few
prepend s too_many = too_many
prepend s no_expression = no_expression

-- the loop, over the values that are left
unfoldable pub render_segments : List ExpressionSegment → List Text → Rendered
render_segments [] [] = rendered []
render_segments [] (v ∷ values) = too_many
render_segments (param name start stop ∷ segs) [] = too_few
render_segments (param name start stop ∷ segs) (v ∷ values) =
    prepend v (render_segments segs values)
render_segments (literal t start stop ∷ segs) values = prepend t (render_segments segs values)
render_segments (opaque t start stop ∷ segs) values = prepend t (render_segments segs values)

pub data ParamFate : Type 0 where
  kept : (old_index new_index : ℕ) → (name_unchanged : Bool) → ParamFate
  removed : (old_index : ℕ) → ParamFate
  added : (new_index : ℕ) → (name : Text) → ParamFate

pub record ExpressionDiff : Type 0 where
  pub old_segments : List ExpressionSegment
  pub new_segments : List ExpressionSegment
  pub param_fates : List ParamFate
  pub literal_changed : Bool

unfoldable pub param_names : List ExpressionSegment → List Text
param_names [] = []
param_names (param name start stop ∷ segs) = name ∷ param_names segs
param_names (_ ∷ segs) = param_names segs

-- phase A, from the position `i` on
unfoldable pub fates_from : ℕ → List Text → List Text → List ParamFate
unfolding text_eq
fates_from i [] [] = []
fates_from i [] (n ∷ new) = added i n ∷ fates_from (suc i) [] new
fates_from i (o ∷ old) [] = removed i ∷ fates_from (suc i) old []
fates_from i (o ∷ old) (n ∷ new) = kept i i (text_eq o n) ∷ fates_from (suc i) old new

-- phase B: the texts that are no parameters, joined
unfoldable pub literals_of : List ExpressionSegment → Text
literals_of [] = []
literals_of (literal t start stop ∷ segs) = t ++ literals_of segs
literals_of (opaque t start stop ∷ segs) = t ++ literals_of segs
literals_of (param name start stop ∷ segs) = literals_of segs

unfoldable pub diff_segments : List ExpressionSegment → List ExpressionSegment → ExpressionDiff
unfolding fates_from param_names literals_of text_eq
diff_segments old new = record {
  old_segments = old;
  new_segments = new;
  param_fates = fates_from 0 (param_names old) (param_names new);
  literal_changed = not (text_eq (literals_of old) (literals_of new));
}

-- `nodes_of` is the expression library, which throws on an expression that is not well-formed
module _ (nodes_of : Text → Option (List Node)) where
  unfoldable pub expression_segments : Text → Option (List ExpressionSegment)
  unfolding segments_of
  expression_segments expression = elim (nodes_of expression) [
    | none ↦ none
    | some nodes ↦ some (segments_of expression none nodes)
  ]

  unfoldable pub render_expression : Text → List Text → Rendered
  unfolding expression_segments render_segments
  render_expression expression values = elim (expression_segments expression) [
    | none ↦ no_expression
    | some segs ↦ render_segments segs values
  ]

  unfoldable pub diff_expressions : Text → Text → Option ExpressionDiff
  unfolding expression_segments diff_segments
  diff_expressions old_expression new_expression = elim (expression_segments old_expression) [
    | none ↦ none
    | some old ↦ elim (expression_segments new_expression) [
      | none ↦ none
      | some new ↦ some (diff_segments old new)
    ]
  ]
