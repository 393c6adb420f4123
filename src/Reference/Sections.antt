-- ===== src/Reference/Sections.antt =====
-- The sections that references name, in a workspace of oaths.
use varar.Base.{
  Bool, false, ◌||◌, List, [], ◌∷◌, ◌++◌, Option, none, some, if◌then◌else◌, length, ◌==◌,
}
use varar.Text.{Text, text_eq, codes}
use varar.Ast.{Block, heading, paragraph, list_item, blockquote, Example, Doc}
use varar.Unicode.{Unicode}
use varar.Reference.Links.{Reference, reference_of, slugify}

-- `docs` is a `Map` by path: among two entries of one path the last one counts. `referenced` is a `Set`.
pub record OathWorkspace : Type 0 where
  pub docs : List (Text × Doc)
  pub referenced : List Text

-- `map.get`
unfoldable pub doc_at : Text → List (Text × Doc) → Option Doc
unfolding text_eq
doc_at path [] = none
doc_at path ((p, doc) ∷ docs) = elim (doc_at path docs) [
  | some d ↦ some d
  | none ↦ if text_eq p path then some doc else none
]

unfoldable pub section_key : Text → Text → Text
section_key path slug = path ++ codes "#" ++ slug

abbrev pub empty_workspace : OathWorkspace
empty_workspace = record { docs = []; referenced = [] }

-- `body[0]`, if it has a text
abbrev pub first_text : List Block → Option Text
first_text [] = none
first_text (heading b ∷ body) = some b.text
first_text (paragraph b ∷ body) = some b.text
first_text (list_item b ∷ body) = some b.text
first_text (blockquote b ∷ body) = some b.text
first_text (_ ∷ body) = none

module _ (unicode : Unicode) where
  -- the reference that a candidate's first block is
  unfoldable pub reference_in : Text → Example → Option Reference
  unfolding reference_of
  reference_in path ex = elim (first_text ex.body) [
    | none ↦ none
    | some t ↦ reference_of unicode t path
  ]

  unfoldable pub references_from : Text → List Example → List Reference
  unfolding reference_in
  references_from path [] = []
  references_from path (ex ∷ examples) = elim (reference_in path ex) [
    | none ↦ references_from path examples
    | some r ↦ r ∷ references_from path examples
  ]

  unfoldable pub references : Doc → List Reference
  unfolding references_from
  references doc = references_from doc.path doc.examples

  unfoldable pub keys_of : List Reference → List Text
  unfolding section_key
  keys_of [] = []
  keys_of (r ∷ refs) = section_key r.path r.slug ∷ keys_of refs

  unfoldable pub referenced_by : List Doc → List Text
  unfolding references keys_of
  referenced_by [] = []
  referenced_by (doc ∷ docs) = keys_of (references doc) ++ referenced_by docs

  abbrev by_path : List Doc → List (Text × Doc)
  by_path [] = []
  by_path (doc ∷ docs) = (doc.path, doc) ∷ by_path docs

  unfoldable pub build_workspace : List Doc → OathWorkspace
  unfolding referenced_by
  build_workspace docs = record { docs = by_path docs; referenced = referenced_by docs }

  -- whether the heading chain contains the slug
  unfoldable pub in_section : Text → List Text → Bool
  unfolding slugify text_eq
  in_section slug [] = false
  in_section slug (h ∷ scopes) = text_eq (slugify unicode h) slug || in_section slug scopes

  unfoldable pub with_slug : Text → List Example → List Example
  unfolding in_section
  with_slug slug [] = []
  with_slug slug (ex ∷ examples) =
      let rest = with_slug slug examples in
      if in_section slug ex.scope_stack then ex ∷ rest else rest

  unfoldable pub section_candidates : Doc → Text → List Example
  unfolding with_slug
  section_candidates doc slug =
      if length slug == 0 then doc.examples else with_slug slug doc.examples
