-- ===== src/Cells/Params/Pairs.antt =====
-- When the values that a sensor returns for its parameters are accepted.
use varar.Base.{
  ℕ, suc, true, List, [], ◌∷◌, ◌++◌, Option, some, ◌≡◌, refl, ◌↔◌, All, arith, length, get_elem?,
  length-append, append_assoc,
}
use varar.Text.{Text}
use varar.Span.{Span}
use varar.Value.{Value}
use varar.DeepEqual.{deep_equal}
use varar.Cells.{Runtime}
use varar.Cells.Params.{param_diffs, compare_params}

-- The values agree one by one, and there are as many of them.
abbrev pub AllEqual : List Value → List Value → Type 0
AllEqual [] [] = Unit
AllEqual (v ∷ vs) (w ∷ ws) = (deep_equal v w ≡ true) × AllEqual vs ws
AllEqual _ _ = ⊥

get_elem?-middle :
    (pre : List Value) (v : Value) (vs : List Value)
    → get_elem? (pre ++ (v ∷ vs)) (length pre) ≡ some v
get_elem?-middle [] v vs = refl
get_elem?-middle (p ∷ pre) v vs = get_elem?-middle pre v vs

module _ (runtime : Runtime) (spans : List Span) (texts : List Text)
    (formats : List (Option ℕ)) where
  param_diffs_iff :
      (pre vs ws : List Value)
      → length vs ≡ length ws
      → All (λ d. d.ok ≡ true) (param_diffs runtime (pre ++ vs) spans texts formats (length pre) ws)
        ↔ AllEqual vs ws
  unfolding param_diffs
  param_diffs_iff pre [] [] h = (λ a. a, λ a. a)
  param_diffs_iff pre [] (w ∷ ws) h = absurd (omega arith)
  param_diffs_iff pre (v ∷ vs) [] h = absurd (omega arith)
  param_diffs_iff pre (v ∷ vs) (w ∷ ws) h =
      let one : length (pre ++ v ∷ []) ≡ suc (length pre) =
        omega (arith, length-append {0} pre (v ∷ [])) in
      let ih = rw (append_assoc, one) at (param_diffs_iff (pre ++ v ∷ []) vs ws (omega arith)) in
      let at_pre = get_elem?-middle pre v vs in
      (λ a. (rw at_pre at a.0, ih.0 a.1), λ a. (rw at_pre a.0, ih.1 a.1))

  -- For as many returned values as captured ones, no difference is found exactly when each returned
  -- value is structurally equal to the captured one at its place.
  pub compare_params_iff :
      (returned expected : List Value)
      → length returned ≡ length expected
      → All (λ d. d.ok ≡ true) (compare_params runtime returned expected spans texts formats)
        ↔ AllEqual returned expected
  unfolding compare_params
  compare_params_iff returned expected h = param_diffs_iff [] returned expected h
