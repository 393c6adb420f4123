-- ===== src/Results/Within.antt =====
-- What an editor shows lies in the source.
use varar.Base.{
  ℕ, suc, ◌+◌, ◌≤◌, ◌<◌, not, ◌&&◌, List, [], ◌∷◌, map, Option, some, ◌≡◌, arith, length,
  length-drop, drop, Bool-cases, Option-cases, inl, inr, ltb, leb, ◌==◌, All, All-append,
}
use varar.Text.{Text, newline, index_of}
use varar.Hash.{hash_source}
use varar.Results.{
  CellFailure, ExampleFailure, ExampleResult, OathResults, RunDiagnostic, start_from, line_range,
  same_document, is_hash, expected_hash, cell_diagnostic, thrown_range, diagnostics_of,
  all_diagnostics, run_result_diagnostics,
}

-- A range of the source.
abbrev pub IsWithin : Text → (first last : ℕ) → Type 0
IsWithin source first last = (first ≤ last) × (last ≤ length source)

start_from-le :
    (s : Text) (i current line start : ℕ)
    → start ≤ i
    → start_from s i current line start ≤ i + length s
unfolding start_from
start_from-le [] i current line start h = omega arith
start_from-le (c ∷ s) i current line start h = ground (
  arith,
  start_from-le s (suc i) (suc current) line (suc i),
  start_from-le s (suc i) current line start,
)

index_of-lt : (c : ℕ) (s : Text) (i : ℕ) → index_of c s ≡ some i → i < length s
unfolding index_of
index_of-lt c [] i e = absurd (cc)
index_of-lt c (d ∷ s) i e = elim (Bool-cases (d == c)) [
  | inl b ↦ ground arith
  | inr b ↦ elim (Option-cases (index_of c s)) [
    | inl q ↦ absurd (ground arith)
    | inr (j, q) ↦ ground (arith, index_of-lt c s j q)
  ]
]

line_range-IsWithin :
    (source : Text) (line : ℕ)
    → IsWithin source (line_range source line).first (line_range source line).last
unfolding line_range
line_range-IsWithin source line =
    let start = start_from source 0 1 line 0 in
    let b : start ≤ length source = omega (arith, start_from-le source 0 1 line 0 (omega arith)) in
    elim (Option-cases (index_of newline (drop start source))) [
      | inl n ↦ rw (line_range, n) (b, omega arith)
      | inr (i, n) ↦
          rw (line_range, n)
            (
              omega arith,
              omega (arith, index_of-lt newline (drop start source) i n, length-drop start source),
            )
    ]

module _ (source : Text) where
  abbrev pub Shown : RunDiagnostic → Type 0
  Shown d = IsWithin source d.first d.last

  -- The cells of the failure lie in the source.
  abbrev pub HasCellsWithin : ExampleFailure → Type 0
  HasCellsWithin f =
      (cells : List CellFailure)
      → f.cells ≡ some cells
      → All (λ c. IsWithin source c.first c.last) cells

  thrown_range-IsWithin :
      (f : ExampleFailure)
      → IsWithin source (thrown_range source f).first (thrown_range source f).last
  unfolding thrown_range
  thrown_range-IsWithin f = elim (Option-cases f.anchor) [
    | inl e ↦ rw (thrown_range, e) (line_range-IsWithin source f.line)
    | inr (a, e) ↦ elim (Bool-cases (ltb a.first a.last && leb a.last (length source))) [
      | inl b ↦ rw (thrown_range, e, b) (ground arith, ground arith)
      | inr b ↦ rw (thrown_range, e, b) (line_range-IsWithin source f.line)
    ]
  ]

  cells-Shown :
      (cells : List CellFailure)
      → All (λ c. IsWithin source c.first c.last) cells
      → All Shown (map (cell_diagnostic source) cells)
  unfolding cell_diagnostic
  cells-Shown [] h = tt
  cells-Shown (c ∷ cells) (p, h) = (p, cells-Shown cells h)

  diagnostics_of-Shown :
      (f : ExampleFailure) → HasCellsWithin f → All Shown (diagnostics_of source f)
  unfolding diagnostics_of
  diagnostics_of-Shown f h = elim (Option-cases f.cells) [
    | inl e ↦ rw (diagnostics_of, e) (thrown_range-IsWithin f, tt)
    | inr (cells, e) ↦ elim (Bool-cases (length cells == 0)) [
      | inl b ↦ rw (diagnostics_of, e, b) (thrown_range-IsWithin f, tt)
      | inr b ↦ rw (diagnostics_of, e, b) (cells-Shown cells (h cells e))
    ]
  ]

  all_diagnostics-Shown :
      (for_document : Option Text) (examples : List ExampleResult)
      → All (λ ex. (f : ExampleFailure) → ex.failure ≡ some f → HasCellsWithin f) examples
      → All Shown (all_diagnostics source for_document examples)
  unfolding all_diagnostics
  all_diagnostics-Shown for_document [] h = tt
  all_diagnostics-Shown for_document (ex ∷ examples) (p, h) = elim (Option-cases ex.failure) [
    | inl e ↦ rw (all_diagnostics, e) (all_diagnostics-Shown for_document examples h)
    | inr (f, e) ↦ elim (Bool-cases (not ex.passed && same_document f.doc_path for_document)) [
      | inl b ↦
          rw (all_diagnostics, e, b)
            (All-append Shown (diagnostics_of source f) _ (diagnostics_of-Shown f (p f e))
              (all_diagnostics-Shown for_document examples h))
      | inr b ↦ rw (all_diagnostics, e, b) (all_diagnostics-Shown for_document examples h)
    ]
  ]

-- What is shown of the results of a run lies in the source, if the cells of the failures do: also where a
-- recorded anchor does not, and where the failing line is none of the source.
pub run_result_diagnostics-Shown :
    (results : OathResults) (source : Text) (for_document : Option Text)
    → All
        (λ ex. (f : ExampleFailure) → ex.failure ≡ some f → HasCellsWithin source f)
        results.examples
    → All (Shown source) (run_result_diagnostics results source for_document)
unfolding run_result_diagnostics
run_result_diagnostics-Shown results source for_document h =
    elim (Bool-cases (is_hash (expected_hash results for_document) (hash_source source))) [
      | inl e ↦
          rw (run_result_diagnostics, e)
            (all_diagnostics-Shown source for_document results.examples h)
      | inr e ↦ rw (run_result_diagnostics, e) tt
    ]
