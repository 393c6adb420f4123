-- ===== src/Results.antt =====
-- typescript/packages/core/src/result.ts and run-diagnostics.ts: the results of a run, and what an editor
-- shows of them.
pub mod Lines
pub mod Within
pub mod Failures
mod Tests
use varar.Base.{
  ℕ, suc, ◌+◌, Bool, true, false, not, ◌&&◌, List, [], ◌∷◌, ◌++◌, map, Option, none, some, ltb, leb,
  ◌==◌, if◌then◌else◌, length, drop,
}
use varar.Text.{Text, text_eq, codes, newline, slice, index_of}
use varar.Hash.{hash_source}

pub record CellFailure : Type 0 where
  pub first : ℕ
  pub last : ℕ
  pub actual : Text

-- offsets, the second one exclusive
pub record Range : Type 0 where
  pub first : ℕ
  pub last : ℕ

pub record ExampleFailure : Type 0 where
  pub line : ℕ
  pub message : Text
  pub stack : Text
  pub cells : Option (List CellFailure)
  pub anchor : Option Range
  pub doc_path : Option Text

pub record ExampleResult : Type 0 where
  pub name : Text
  pub passed : Bool
  pub lines : List ℕ
  pub failure : Option ExampleFailure

pub record Document : Type 0 where
  pub path : Text
  pub source_hash : Text

pub record OathResults : Type 0 where
  pub oath_path : Text
  pub source_hash : Text
  pub documents : Option (List Document)
  pub examples : List ExampleResult

pub record RunDiagnostic : Type 0 where
  pub first : ℕ
  pub last : ℕ
  pub message : Text

-- the loop of `lineRange`: the variable `from` behind it
unfoldable pub start_from : Text → (i current line start : ℕ) → ℕ
start_from [] i current line start = start
start_from (c ∷ source) i current line start =
    let behind = if c == newline then suc i else start in
    let next = if c == newline then suc current else current in
    let rest = start_from source (suc i) next line behind in
    if ltb current line then rest else start

-- `lineRange`
unfoldable pub line_range : Text → ℕ → Range
unfolding start_from index_of
line_range source line =
    let start = start_from source 0 1 line 0 in
    record {
      first = start;
      last = elim (index_of newline (drop start source)) [
        | none ↦ length source
        | some i ↦ start + i
      ];
    }

-- `documents?.find(…)?.sourceHash`
unfoldable pub hash_at : Text → List Document → Option Text
unfolding text_eq
hash_at path [] = none
hash_at path (d ∷ documents) =
    if text_eq d.path path then some d.source_hash else hash_at path documents

abbrev pub documents_of : OathResults → List Document
documents_of r = elim r.documents [ none ↦ [] | some ds ↦ ds ]

-- the hash of the document that the source is
unfoldable pub expected_hash : OathResults → Option Text → Option Text
unfolding hash_at
expected_hash results none = some results.source_hash
expected_hash results (some path) = hash_at path (documents_of results)

-- `f.docPath === forDocument`
abbrev pub same_document : Option Text → Option Text → Bool
same_document none none = true
same_document (some p) (some q) = text_eq p q
same_document _ _ = false

module _ (source : Text) where
  unfoldable pub cell_diagnostic : CellFailure → RunDiagnostic
  cell_diagnostic c = record {
    first = c.first;
    last = c.last;
    message = codes "expected " ++ slice source c.first c.last ++ codes " but was " ++ c.actual;
  }

  abbrev pub diagnostic_at : Range → Text → RunDiagnostic
  diagnostic_at r message = record { first = r.first; last = r.last; message = message }

  -- a thrown step: its anchor, if it has a place in the source, or its line
  unfoldable pub thrown_range : ExampleFailure → Range
  unfolding line_range
  thrown_range f = elim f.anchor [
    | none ↦ line_range source f.line
    | some a ↦
        if ltb a.first a.last && leb a.last (length source) then a else line_range source f.line
  ]

  unfoldable pub diagnostics_of : ExampleFailure → List RunDiagnostic
  unfolding cell_diagnostic thrown_range
  diagnostics_of f = elim f.cells [
    | none ↦ diagnostic_at (thrown_range f) f.message ∷ []
    | some cells ↦
        if length cells == 0
        then diagnostic_at (thrown_range f) f.message ∷ []
        else map cell_diagnostic cells
  ]

  -- the loop over the examples
  unfoldable pub all_diagnostics : Option Text → List ExampleResult → List RunDiagnostic
  unfolding diagnostics_of text_eq
  all_diagnostics for_document [] = []
  all_diagnostics for_document (ex ∷ examples) =
      let rest = all_diagnostics for_document examples in
      elim ex.failure [
        | none ↦ rest
        | some f ↦
            if not ex.passed && same_document f.doc_path for_document
            then diagnostics_of f ++ rest
            else rest
      ]

abbrev pub is_hash : Option Text → Text → Bool
is_hash none h = false
is_hash (some e) h = text_eq h e

-- `runResultDiagnostics`
unfoldable pub run_result_diagnostics : OathResults → Text → Option Text → List RunDiagnostic
unfolding expected_hash hash_source all_diagnostics text_eq
run_result_diagnostics results source for_document =
    if is_hash (expected_hash results for_document) (hash_source source)
    then all_diagnostics source for_document results.examples
    else []
