-- ===== src/Cells/Tests.antt =====
-- Runs of cell-diff.ts, param-diff.ts and doc-string-diff.ts, and their theorems at concrete values.
use varar.Base.{Bool, true, List, [], ◌∷◌, none, ◌≡◌, refl, ◌↔◌, All, map}
use varar.Text.{Text, codes, decimal}
use varar.Span.{Span}
use varar.Ast.{Row, Table}
use varar.Value.{Value, num, str, array, object, Values, nil, cons, end, field, to_list}
use varar.Cells.{RowCheck, CellDiff, Runtime, compare_row, Checked, checked, misshaped, row_count}
use varar.Cells.Tables.{compare_table}
use varar.Cells.Tables.Exact.{IsAccepted, rendered, row_texts, compare_table-IsAccepted}
use varar.Cells.Rows.{AgreesOn, compare_row_iff}
use varar.Cells.Params.{compare_params}
use varar.Cells.Params.Pairs.{AllEqual, compare_params_iff}

abbrev to_string : Value → Text
to_string (num n) = decimal n
to_string _ = codes "?"

abbrev runtime : Runtime
runtime = record {
  to_string = to_string;
  to_json = λ v. none;
  other_property = λ v k. none;
  format = λ i v. none;
}

abbrev span : Span
span = record {
  start_offset = 0;
  end_offset = 1;
  start_line = 1;
  start_col = 1;
  end_line = 1;
  end_col = 2;
}

abbrev row : Text → Text → Row
row a b = record { span = span; cells = a ∷ b ∷ []; cell_spans = span ∷ span ∷ [] }

-- | name | age |, with one row, | Ada | 36 |
abbrev people : Table
people = record {
  span = span;
  header = row (codes "name") (codes "age");
  rows = row (codes "Ada") (codes "36") ∷ [];
}

abbrev answer : Values
answer = cons (array 1 (cons (str (codes "Ada")) (cons (num 36) nil))) nil

compare_table-IsAccepted_example : IsAccepted (compare_table runtime (array 0 answer) people) ↔ (
    map (rendered runtime) (to_list answer)
    ≡ map (row_texts runtime 0 people.header.cells) people.rows)
compare_table-IsAccepted_example = compare_table-IsAccepted runtime 0 answer people refl

abbrev outcomes : Checked (List CellDiff) → List Bool
outcomes (checked ds) = map (λ d. d.ok) ds
outcomes (misshaped e) = []

table_accepted : outcomes (compare_table runtime (array 0 answer) people) ≡ true ∷ true ∷ []
unfolding compare_table
table_accepted = refl

rows_counted : compare_table runtime (array 0 nil) people ≡ misshaped (row_count 1 0)
unfolding compare_table
rows_counted = refl

abbrev check : RowCheck
check = record { column = codes "age"; value = codes "36"; span = span }

abbrev ada : Value
ada = object 0 (field (codes "age") (num 36) end)

compare_row_iff_example :
    All (λ d. d.ok ≡ true) (compare_row runtime ada (check ∷ []))
    ↔ All (AgreesOn runtime ada) (check ∷ [])
compare_row_iff_example = compare_row_iff runtime ada (check ∷ []) refl refl

compare_params_iff_example :
    All
      (λ d. d.ok ≡ true)
      (compare_params runtime (num 5 ∷ []) (num 6 ∷ []) (span ∷ []) (codes "6" ∷ []) (none ∷ []))
    ↔ AllEqual (num 5 ∷ []) (num 6 ∷ [])
compare_params_iff_example =
    compare_params_iff runtime (span ∷ []) (codes "6" ∷ []) (none ∷ []) (num 5 ∷ []) (num 6 ∷ [])
      refl
