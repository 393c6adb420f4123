-- ===== src/Expressions/Tests.antt =====
-- Runs of expression-segments.ts, and its theorems at a concrete expression.
use varar.Base.{ℕ, List, [], ◌∷◌, Option, none, some, ◌≡◌, refl, ◌↔◌, length, arith}
use varar.Text.{Text, codes}
use varar.Expressions.{
  NodeType, text_node, parameter_node, other_node, Node, ExpressionSegment, literal, param, opaque,
  segments_of, rendered, render_segments, render_expression, param_names,
}
use varar.Expressions.Rendering.{own_values, render_expression_own, render_segments_iff}

abbrev expression : Text
expression = codes "I eat {int} cuke(s)"

abbrev node : NodeType → ℕ → ℕ → Node
node kind start stop = record { kind = kind; start = start; stop = stop }

abbrev nodes : List Node
nodes =
    node text_node 0 1
    ∷ node text_node 1 6
    ∷ node parameter_node 6 11
    ∷ node text_node 11 16
    ∷ node other_node 16 19
    ∷ []

abbrev nodes_of : Text → Option (List Node)
nodes_of e = some nodes

coalesced :
    segments_of expression none nodes
    ≡ literal (codes "I eat ") 0 6
      ∷ param (codes "int") 6 11
      ∷ literal (codes " cuke") 11 16
      ∷ opaque (codes "(s)") 16 19
      ∷ []
unfolding segments_of
coalesced = refl

three_cukes :
    render_expression nodes_of expression (codes "3" ∷ []) ≡ rendered (codes "I eat 3 cuke(s)")
unfolding render_expression
three_cukes = refl

render_expression_own_example :
    render_expression nodes_of expression
      (own_values expression (segments_of expression none nodes))
    ≡ rendered expression
render_expression_own_example = render_expression_own nodes_of expression nodes refl (
  refl,
  (omega arith),
  (refl, (omega arith), (refl, (omega arith), (refl, (omega arith), (refl, (omega arith), refl)))),
)

abbrev segments : List ExpressionSegment
segments = literal (codes "I eat ") 0 6 ∷ param (codes "int") 6 11 ∷ []

render_segments_iff_example :
    ((t : Text) × (render_segments segments (codes "3" ∷ []) ≡ rendered t))
    ↔ (length (codes "3" ∷ []) ≡ length (param_names segments))
render_segments_iff_example = render_segments_iff segments (codes "3" ∷ [])
