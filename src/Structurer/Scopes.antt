-- ===== src/Structurer/Scopes.antt =====
-- Which headings stand above a block, read off the headings before it.
use varar.Base.{ℕ, ◌≤◌, List, [], ◌∷◌, ◌≡◌, refl, arith, ltb, if◌then◌else◌, map}
use varar.Ast.{Heading}
use varar.Structurer.{Scope, pop_scopes}

abbrev pub to_scope : Heading → Scope
to_scope h = record { level = h.level; text = h.text }

-- Going back over the headings, latest first: those of a level below `bound` and below the level of
-- every heading passed on the way.
unfoldable pub outer : ℕ → List Heading → List Heading
outer bound [] = []
outer bound (h ∷ past) =
    let nearer = outer h.level past in
    let further = outer bound past in if ltb h.level bound then h ∷ nearer else further

-- The headings above a block: the latest one, and those that enclose it.
unfoldable pub enclosing : List Heading → List Heading
unfolding outer
enclosing [] = []
enclosing (h ∷ past) = h ∷ outer h.level past

pub pop_scopes-outer :
    (level bound : ℕ) (past : List Heading)
    → level ≤ bound
    → pop_scopes level (map to_scope (outer bound past)) ≡ map to_scope (outer level past)
unfolding pop_scopes outer
pop_scopes-outer level bound [] h = refl
pop_scopes-outer level bound (k ∷ past) h =
    ground (arith, pop_scopes-outer level bound past, pop_scopes-outer level k.level past)

pub pop_scopes-enclosing :
    (level : ℕ) (past : List Heading)
    → pop_scopes level (map to_scope (enclosing past)) ≡ map to_scope (outer level past)
unfolding enclosing pop_scopes
pop_scopes-enclosing level [] = refl
pop_scopes-enclosing level (k ∷ past) = ground (arith, pop_scopes-outer level k.level past)
