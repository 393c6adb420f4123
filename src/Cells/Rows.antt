-- ===== src/Cells/Rows.antt =====
-- When the object that a header-bound row's step returns is accepted.
use varar.Base.{
  true, false, List, [], ◌∷◌, Option, none, some, ◌≡◌, ◌↔◌, All, Option-cases, inl, inr,
}
use varar.Text.{Text}
use varar.Text.Laws.{text_eq_iff}
use varar.Value.{Value}
use varar.Cells.{
  RowCheck, Runtime, is_object_type, is_null, render_cell_value, property, row_diffs, compare_row,
}

module _ (runtime : Runtime) where
  -- Where the object has the column, it shows the text of the cell.
  abbrev pub Shows : Option Value → Text → Type 0
  Shows none expected = Unit
  Shows (some v) expected = render_cell_value runtime v ≡ expected

  abbrev pub AgreesOn : Value → RowCheck → Type 0
  AgreesOn returned check = Shows (property runtime returned check.column) check.value

  row_diffs_iff :
      (returned : Value) (checks : List RowCheck)
      → All (λ d. d.ok ≡ true) (row_diffs runtime returned checks) ↔ All (AgreesOn returned) checks
  unfolding row_diffs
  row_diffs_iff returned [] = (λ a. a, λ a. a)
  row_diffs_iff returned (check ∷ checks) =
      let ih = row_diffs_iff returned checks in
      elim (Option-cases (property runtime returned check.column)) [
        | inl e ↦ rw (e, row_diffs) (λ a. (tt, ih.0 a), λ a. ih.1 a.1)
        | inr (v, e) ↦
            rw (e, row_diffs)
              (λ a. ((text_eq_iff _ _).0 a.0, ih.0 a.1), λ a. ((text_eq_iff _ _).1 a.0, ih.1 a.1))
      ]

  -- No difference is found in a returned object exactly when it shows the cell's text in every column
  -- of the row that it has; columns that it lacks are not compared.
  pub compare_row_iff :
      (returned : Value) (checks : List RowCheck)
      → is_object_type returned ≡ true
      → is_null returned ≡ false
      → All (λ d. d.ok ≡ true) (compare_row runtime returned checks)
        ↔ All (AgreesOn returned) checks
  unfolding compare_row
  compare_row_iff returned checks o n = rw (n, o) (row_diffs_iff returned checks)
