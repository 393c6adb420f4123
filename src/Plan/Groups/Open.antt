-- ===== src/Plan/Groups/Open.antt =====
-- The loop of phase 2 over candidates without references, by what is open behind each part.
use varar.Base.{
  Bool, true, false, not, ◌&&◌, List, [], ◌∷◌, ◌++◌, append-nil, append_assoc, none, some, ◌≡◌,
  refl, ap, sym, subst, ◌∙◌, Bool-cases, inl, inr, if◌then◌else◌, arith,
}
use varar.Text.{Text}
use varar.Ast.{Example}
use varar.Plan.{PlannedExample}
use varar.Plan.Headers.{Bound}
use varar.Plan.Candidates.{StepsUnit}
use varar.Plan.Merging.{
  MergedExample, Grouping, start_merged, merge_into, finish_merged, flush, group_steps, group_unit,
  group_rows, no_examples,
}
use varar.Plan.Groups.{
  Part, rows, paragraph, Group, table, run, goes_on, begun, groups_of, merge_all, bound_examples,
  merged_examples, group_part, group_parts,
}

module _ (source : Text) where
  -- what the loop adds to the examples that are closed, while `merged` is open
  abbrev with_open : MergedExample → Bool → List Group → List PlannedExample
  with_open merged true (run u units ∷ groups) =
      finish_merged source (merge_all merged (u ∷ units)) ∷ merged_examples source groups
  with_open merged _ groups = finish_merged source merged ∷ merged_examples source groups

  abbrev StartsRun : Bool → List Group → Type 0
  StartsRun true (run u units ∷ groups) = Unit
  StartsRun true _ = ⊥
  StartsRun false groups = Unit

  begun-StartsRun :
      (b : Bool) (u : StepsUnit) (goes : Bool) (groups : List Group)
      → StartsRun b (begun u goes groups)
  begun-StartsRun false u goes groups = tt
  begun-StartsRun true u false groups = tt
  begun-StartsRun true u true [] = tt
  begun-StartsRun true u true (table ex bound ∷ groups) = tt
  begun-StartsRun true u true (run v units ∷ groups) = tt

  unmatched :
      (u : StepsUnit) (parts : List Part)
      → u.matched ≡ false
      → groups_of (paragraph u ∷ parts) ≡ groups_of parts
  unmatched u parts e =
      ap (λ b. if not b then groups_of parts else begun u (goes_on parts) (groups_of parts)) e

  with_steps :
      (u : StepsUnit) (parts : List Part)
      → u.matched ≡ true
      → groups_of (paragraph u ∷ parts) ≡ begun u (goes_on parts) (groups_of parts)
  with_steps u parts e =
      ap (λ b. if not b then groups_of parts else begun u (goes_on parts) (groups_of parts)) e

  goes_on-StartsRun : (parts : List Part) → StartsRun (goes_on parts) (groups_of parts)
  goes_on-StartsRun [] = tt
  goes_on-StartsRun (rows ex bound ∷ parts) = tt
  goes_on-StartsRun (paragraph u ∷ parts) = elim (Bool-cases u.matched) [
    | inl e ↦
        subst (StartsRun (u.matched && not u.preceded_by_delimiter)) (sym (with_steps u parts e)) (
          begun-StartsRun (u.matched && not u.preceded_by_delimiter) u (goes_on parts)
            (groups_of parts))
    | inr e ↦
        subst (λ b. StartsRun (b && not u.preceded_by_delimiter) (groups_of (paragraph u ∷ parts)))
          (sym e) tt
  ]

  -- a closed example, and one that is begun
  shut_lem :
      (merged : MergedExample) (groups : List Group)
      → with_open merged false groups ≡ finish_merged source merged ∷ merged_examples source groups
  shut_lem merged [] = refl
  shut_lem merged (table ex bound ∷ groups) = refl
  shut_lem merged (run u units ∷ groups) = refl

  begun_lem :
      (u : StepsUnit) (goes : Bool) (groups : List Group)
      → StartsRun goes groups
      → merged_examples source (begun u goes groups) ≡ with_open (start_merged u) goes groups
  begun_lem u true (run v units ∷ groups) h = refl
  begun_lem u true [] h = absurd h
  begun_lem u true (table ex bound ∷ groups) h = absurd h
  begun_lem u false groups h = sym (shut_lem (start_merged u) groups)

  merged_lem :
      (merged : MergedExample) (u : StepsUnit) (goes : Bool) (groups : List Group)
      → StartsRun goes groups
      → with_open merged true (begun u goes groups)
        ≡ with_open (merge_into merged u false) goes groups
  merged_lem merged u true (run v units ∷ groups) h = refl
  merged_lem merged u true [] h = absurd h
  merged_lem merged u true (table ex bound ∷ groups) h = absurd h
  merged_lem merged u false groups h = sym (shut_lem (merge_into merged u false) groups)

  abbrev opening : List PlannedExample → MergedExample → Grouping
  opening es merged = record { examples = es; opened = some merged }

  abbrev closed : List PlannedExample → Grouping
  closed es = record { examples = es; opened = none }

  part_prose :
      (u : StepsUnit) (g : Grouping)
      → u.matched ≡ false
      → group_part source (paragraph u) g ≡ flush source g
  unfolding group_part group_unit
  part_prose u g e = ground arith

  part_first :
      (u : StepsUnit) (es : List PlannedExample)
      → u.matched ≡ true
      → group_part source (paragraph u) (closed es) ≡ opening es (start_merged u)
  unfolding group_part group_unit group_steps
  part_first u es e = ground arith

  part_goes_on :
      (u : StepsUnit) (es : List PlannedExample) (merged : MergedExample)
      → u.matched ≡ true
      → u.preceded_by_delimiter ≡ false
      → group_part source (paragraph u) (opening es merged) ≡ opening es (merge_into merged u false)
  unfolding group_part group_unit group_steps
  part_goes_on u es merged e d = ground arith

  part_parted :
      (u : StepsUnit) (es : List PlannedExample) (merged : MergedExample)
      → u.matched ≡ true
      → u.preceded_by_delimiter ≡ true
      → group_part source (paragraph u) (opening es merged)
        ≡ opening (es ++ finish_merged source merged ∷ []) (start_merged u)
  unfolding group_part group_unit group_steps flush
  part_parted u es merged e d = ground arith

  part_table :
      (ex : Example) (bound : Bound) (es : List PlannedExample)
      → group_part source (rows ex bound) (closed es) ≡ closed (es ++ bound_examples ex bound)
  unfolding group_part group_rows flush
  part_table ex bound es = refl

  part_table_behind :
      (ex : Example) (bound : Bound) (es : List PlannedExample) (merged : MergedExample)
      → group_part source (rows ex bound) (opening es merged)
        ≡ closed ((es ++ finish_merged source merged ∷ []) ++ bound_examples ex bound)
  unfolding group_part group_rows flush
  part_table_behind ex bound es merged = refl

  abbrev behind : MergedExample → List Part → List PlannedExample
  behind merged parts = with_open merged (goes_on parts) (groups_of parts)

  behind_parted :
      (u : StepsUnit) (parts : List Part) (merged : MergedExample)
      → u.matched ≡ true
      → u.preceded_by_delimiter ≡ true
      → behind merged (paragraph u ∷ parts)
        ≡ finish_merged source merged ∷ behind (start_merged u) parts
  behind_parted u parts merged e d =
      let off : goes_on (paragraph u ∷ parts) ≡ false = ground arith in
      ap (λ b. with_open merged b (groups_of (paragraph u ∷ parts))) off
      ∙ shut_lem merged (groups_of (paragraph u ∷ parts))
      ∙ ap (λ l. finish_merged source merged ∷ l)
          (ap (merged_examples source) (with_steps u parts e)
            ∙ begun_lem u (goes_on parts) (groups_of parts) (goes_on-StartsRun parts))

  behind_goes_on :
      (u : StepsUnit) (parts : List Part) (merged : MergedExample)
      → u.matched ≡ true
      → u.preceded_by_delimiter ≡ false
      → behind merged (paragraph u ∷ parts) ≡ behind (merge_into merged u false) parts
  behind_goes_on u parts merged e d =
      let on : goes_on (paragraph u ∷ parts) ≡ true = ground arith in
      ap (λ b. with_open merged b (groups_of (paragraph u ∷ parts))) on
      ∙ ap (with_open merged true) (with_steps u parts e)
      ∙ merged_lem merged u (goes_on parts) (groups_of parts) (goes_on-StartsRun parts)

  behind_prose :
      (u : StepsUnit) (parts : List Part) (merged : MergedExample)
      → u.matched ≡ false
      → behind merged (paragraph u ∷ parts)
        ≡ finish_merged source merged ∷ merged_examples source (groups_of parts)
  behind_prose u parts merged e =
      let off : goes_on (paragraph u ∷ parts) ≡ false = ground arith in
      ap (λ b. with_open merged b (groups_of (paragraph u ∷ parts))) off
      ∙ shut_lem merged (groups_of (paragraph u ∷ parts))
      ∙ ap (λ l. finish_merged source merged ∷ merged_examples source l) (unmatched u parts e)

  mutual
    unfolding group_parts flush

    closed_lem :
        (parts : List Part) (es : List PlannedExample)
        → group_parts source parts (closed es) ≡ es ++ merged_examples source (groups_of parts)
    closed_lem [] es = sym (append-nil es)
    closed_lem (rows ex bound ∷ parts) es =
        ap (group_parts source parts) (part_table ex bound es)
        ∙ closed_lem parts (es ++ bound_examples ex bound)
        ∙ rw append_assoc
    closed_lem (paragraph u ∷ parts) es = elim (Bool-cases u.matched) [
      | inl e ↦
          ap (group_parts source parts) (part_first u es e)
          ∙ open_lem parts es (start_merged u)
          ∙ ap (λ l. es ++ l)
              (sym (begun_lem u (goes_on parts) (groups_of parts) (goes_on-StartsRun parts))
                ∙ ap (merged_examples source) (sym (with_steps u parts e)))
      | inr e ↦
          ap (group_parts source parts) (part_prose u (closed es) e)
          ∙ closed_lem parts es
          ∙ ap (λ l. es ++ merged_examples source l) (sym (unmatched u parts e))
    ]

    open_lem :
        (parts : List Part) (es : List PlannedExample) (merged : MergedExample)
        → group_parts source parts (opening es merged)
          ≡ es ++ with_open merged (goes_on parts) (groups_of parts)
    open_lem [] es merged = refl
    open_lem (rows ex bound ∷ parts) es merged =
        ap (group_parts source parts) (part_table_behind ex bound es merged)
        ∙ closed_lem parts ((es ++ finish_merged source merged ∷ []) ++ bound_examples ex bound)
        ∙ rw (append_assoc, append_assoc)
    open_lem (paragraph u ∷ parts) es merged = elim (Bool-cases u.matched) [
      | inl e ↦ elim (Bool-cases u.preceded_by_delimiter) [
        | inl d ↦
            ap (group_parts source parts) (part_parted u es merged e d)
            ∙ open_lem parts (es ++ finish_merged source merged ∷ []) (start_merged u)
            ∙ append_assoc es (finish_merged source merged ∷ []) _
            ∙ ap (λ l. es ++ l) (sym (behind_parted u parts merged e d))
        | inr d ↦
            ap (group_parts source parts) (part_goes_on u es merged e d)
            ∙ open_lem parts es (merge_into merged u false)
            ∙ ap (λ l. es ++ l) (sym (behind_goes_on u parts merged e d))
      ]
      | inr e ↦
          ap (group_parts source parts) (part_prose u (opening es merged) e)
          ∙ closed_lem parts (es ++ finish_merged source merged ∷ [])
          ∙ append_assoc es (finish_merged source merged ∷ []) _
          ∙ ap (λ l. es ++ l) (sym (behind_prose u parts merged e))
    ]

  pub group_parts_lem :
      (parts : List Part)
      → group_parts source parts no_examples ≡ merged_examples source (groups_of parts)
  group_parts_lem parts = closed_lem parts []
