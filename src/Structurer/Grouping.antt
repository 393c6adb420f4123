-- ===== src/Structurer/Grouping.antt =====
-- `structure` against a description with no loop variables.
use mathlib.Core.List.{reverse, reverse-cons, map-append, map-map}
use varar.Base.{
  Bool, true, false, List, [], ◌∷◌, ◌++◌, map, some, ◌≡◌, refl, ap, sym, ◌∙◌, arith, append-nil,
  append_assoc, length, get_elem?, set,
}
use varar.Text.{Text}
use varar.Ast.{
  Heading, Block, heading, paragraph, list_item, blockquote, table, fence, thematic_break, Example,
  block_span,
}
use varar.Structurer.{
  Progress, scope_text, on_heading, on_text, attach, on_attachment, structure_from, start,
  structure,
}
use varar.Structurer.Scopes.{to_scope, enclosing, pop_scopes-enclosing}

abbrev pub heading_text : Heading → Text
heading_text h = h.text

-- The candidate that the text block `b` makes, below the headings `past` (latest first).
abbrev pub candidate : List Heading → Bool → Block → Example
candidate past delimited b = record {
  scope_stack = map heading_text (reverse (enclosing past));
  span = block_span b;
  body = b ∷ [];
  preceded_by_delimiter = delimited;
}

-- the tables and fences that stand in front, before any other block
unfoldable pub run : List Block → List Block
run (table t ∷ blocks) = table t ∷ run blocks
run (fence f ∷ blocks) = fence f ∷ run blocks
run _ = []

unfoldable pub attach_all : Text → List Block → Example → Example
attach_all source [] e = e
attach_all source (b ∷ blocks) e = attach_all source blocks (attach source b e)

-- The candidate examples: one for each paragraph, list item and blockquote, with the run of tables
-- and fences behind it. `delimited` is whether a heading or break, or nothing, comes before.
unfoldable pub grouped : Text → List Heading → Bool → List Block → List Example
unfolding run attach_all
grouped source past delimited [] = []
grouped source past delimited (heading h ∷ blocks) = grouped source (h ∷ past) true blocks
grouped source past delimited (thematic_break b ∷ blocks) = grouped source past true blocks
grouped source past delimited (table t ∷ blocks) = grouped source past delimited blocks
grouped source past delimited (fence f ∷ blocks) = grouped source past delimited blocks
grouped source past delimited (b ∷ blocks) =
    attach_all source (run blocks) (candidate past delimited b) ∷ grouped source past false blocks

get_elem?-last {ℓ} :
    {A : Type ℓ} (xs : List A) (a : A) → get_elem? (xs ++ a ∷ []) (length xs) ≡ some a
get_elem?-last [] a = refl
get_elem?-last (x ∷ xs) a = get_elem?-last xs a

set-last {ℓ} :
    {A : Type ℓ} (xs : List A) (a b : A) → set (xs ++ a ∷ []) (length xs) b ≡ xs ++ b ∷ []
set-last [] a b = refl
set-last (x ∷ xs) a b = ap (◌∷◌ x) (set-last xs a b)

-- What the loop knows: the scopes are the enclosing headings, and an open attachment has the last
-- example to go to.
abbrev pub Follows : List Heading → Bool → Progress → Type 0
Follows past delimited p =
    (p.scopes ≡ map to_scope (enclosing past)) × (p.delimiter_pending ≡ delimited)

abbrev pub OpenAt : List Example → Example → Progress → Type 0
OpenAt before e p =
    (p.examples ≡ before ++ e ∷ [])
    × (p.last_example_idx ≡ some (length before))
    × (p.attachment_open ≡ true)

pub on_attachment_open :
    (source : Text) (b : Block) (p : Progress) (before : List Example) (e : Example)
    → OpenAt before e p
    → on_attachment source b p ≡ record p { examples = before ++ attach source b e ∷ [] }
unfolding on_attachment
on_attachment_open source b p before e o =
    ground (arith, get_elem?-last before e, set-last before e (attach source b e))

pub on_attachment_closed :
    (source : Text) (b : Block) (p : Progress)
    → p.attachment_open ≡ false
    → on_attachment source b p ≡ record p { orphans = p.orphans ++ b ∷ [] }
unfolding on_attachment
on_attachment_closed source b p o = ground arith

pub Follows-on_heading :
    (h : Heading) (past : List Heading) (d : Bool) (p : Progress)
    → Follows past d p
    → Follows (h ∷ past) true (on_heading h p)
unfolding on_heading enclosing
Follows-on_heading h past d p (s, _) =
    (ap (◌∷◌ (to_scope h)) (rw s (pop_scopes-enclosing h.level past)), refl)

map-reverse {ℓ κ} :
    {A : Type ℓ} {B : Type κ} (f : A → B) (xs : List A) → map f (reverse xs) ≡ reverse (map f xs)
map-reverse f [] = refl
map-reverse f (x ∷ xs) = simp (reverse-cons, map-append, map-reverse f xs)

scope_texts :
    (past : List Heading) (p : Progress)
    → p.scopes ≡ map to_scope (enclosing past)
    → map scope_text (reverse p.scopes) ≡ map heading_text (reverse (enclosing past))
scope_texts past p s = simp (s, map-reverse, map-map)

pub OpenAt-on_text :
    (b : Block) (past : List Heading) (d : Bool) (p : Progress)
    → Follows past d p
    → OpenAt p.examples (candidate past d b) (on_text b p)
unfolding on_text
OpenAt-on_text b past d p (s, e) = (rw (scope_texts past p s, e) refl, refl, refl)

-- what follows the last example
after_last {ℓ} :
    {A : Type ℓ} {xs : List A} (ys : List A) (a : A) (zs : List A)
    → xs ≡ ys ++ a ∷ []
    → xs ++ zs ≡ ys ++ (a ∷ zs)
after_last ys a zs h = rw h (append_assoc ys (a ∷ []) zs)

module _ (source : Text) where
  then_examples :
      (blocks : List Block) {p q : Progress}
      → p ≡ q
      → (structure_from source blocks p).examples ≡ (structure_from source blocks q).examples
  then_examples blocks e = ap (λ r. (structure_from source blocks r).examples) e

  mutual
    unfolding structure_from grouped

    structure_from-closed :
        (blocks : List Block) (past : List Heading) (d : Bool) (p : Progress)
        → Follows past d p
        → p.attachment_open ≡ false
        → (structure_from source blocks p).examples ≡ p.examples ++ grouped source past d blocks
    structure_from-closed [] past d p f o = sym (append-nil _)
    structure_from-closed (heading h ∷ blocks) past d p f o =
        structure_from-closed blocks (h ∷ past) true (on_heading h p)
          (Follows-on_heading h past d p f) refl
    structure_from-closed (thematic_break b ∷ blocks) past d p f o =
        structure_from-closed blocks past true _ (f.0, refl) refl
    structure_from-closed (table t ∷ blocks) past d p f o =
        then_examples blocks (on_attachment_closed source (table t) p o)
        ∙ structure_from-closed blocks past d _ f o
    structure_from-closed (fence t ∷ blocks) past d p f o =
        then_examples blocks (on_attachment_closed source (fence t) p o)
        ∙ structure_from-closed blocks past d _ f o
    structure_from-closed (paragraph b ∷ blocks) past d p f o =
        structure_from-open blocks past p.examples (candidate past d (paragraph b))
          (on_text (paragraph b) p) (f.0, refl) (OpenAt-on_text (paragraph b) past d p f)
    structure_from-closed (list_item b ∷ blocks) past d p f o =
        structure_from-open blocks past p.examples (candidate past d (list_item b))
          (on_text (list_item b) p) (f.0, refl) (OpenAt-on_text (list_item b) past d p f)
    structure_from-closed (blockquote b ∷ blocks) past d p f o =
        structure_from-open blocks past p.examples (candidate past d (blockquote b))
          (on_text (blockquote b) p) (f.0, refl) (OpenAt-on_text (blockquote b) past d p f)

    structure_from-open :
        (blocks : List Block) (past : List Heading) (before : List Example) (e : Example)
        (p : Progress)
        → Follows past false p
        → OpenAt before e p
        → (structure_from source blocks p).examples
          ≡ before ++ (attach_all source (run blocks) e ∷ grouped source past false blocks)
    structure_from-open [] past before e p f o = o.0
    structure_from-open (heading h ∷ blocks) past before e p f o =
        structure_from-closed blocks (h ∷ past) true (on_heading h p)
          (Follows-on_heading h past false p f) refl
        ∙ after_last before e _ o.0
    structure_from-open (thematic_break b ∷ blocks) past before e p f o =
        structure_from-closed blocks past true _ (f.0, refl) refl ∙ after_last before e _ o.0
    structure_from-open (table t ∷ blocks) past before e p f o =
        then_examples blocks (on_attachment_open source (table t) p before e o)
        ∙ structure_from-open blocks past before (attach source (table t) e) _ f (refl, o.1, o.2)
    structure_from-open (fence t ∷ blocks) past before e p f o =
        then_examples blocks (on_attachment_open source (fence t) p before e o)
        ∙ structure_from-open blocks past before (attach source (fence t) e) _ f (refl, o.1, o.2)
    structure_from-open (paragraph b ∷ blocks) past before e p f o =
        structure_from-open blocks past p.examples (candidate past false (paragraph b))
          (on_text (paragraph b) p) (f.0, refl) (OpenAt-on_text (paragraph b) past false p f)
        ∙ after_last before e _ o.0
    structure_from-open (list_item b ∷ blocks) past before e p f o =
        structure_from-open blocks past p.examples (candidate past false (list_item b))
          (on_text (list_item b) p) (f.0, refl) (OpenAt-on_text (list_item b) past false p f)
        ∙ after_last before e _ o.0
    structure_from-open (blockquote b ∷ blocks) past before e p f o =
        structure_from-open blocks past p.examples (candidate past false (blockquote b))
          (on_text (blockquote b) p) (f.0, refl) (OpenAt-on_text (blockquote b) past false p f)
        ∙ after_last before e _ o.0

-- The examples of a document are its text blocks in order, each with the run of tables and fences
-- right behind it, below the headings that enclose it, and marked by whether a heading or a break
-- (or nothing) separates it from the text block before it.
pub structure-grouped :
    (path source : Text) (blocks : List Block)
    → (structure path source blocks).examples ≡ grouped source [] true blocks
unfolding structure enclosing
structure-grouped path source blocks =
    structure_from-closed source blocks [] true start (refl, refl) refl
