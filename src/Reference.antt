-- ===== src/Reference.antt =====
-- typescript/packages/core/src/reference.ts: the paths of references.
pub mod Paths
pub mod Links
pub mod Sections
mod Tests
use varar.Base.{
  ℕ, Bool, true, false, not, ◌||◌, List, [], ◌∷◌, ◌++◌, Option, none, some, if◌then◌else◌,
}
use varar.Text.{Text, text_eq, split_on, join_on}

abbrev pub slash : ℕ
slash = b'/'

abbrev pub here : Text
here = b'.' ∷ []

abbrev pub up : Text
up = b'.' ∷ b'.' ∷ []

-- `segments[segments.length - 1]`
unfoldable pub last_segment : List Text → Option Text
last_segment [] = none
last_segment (s ∷ []) = some s
last_segment (s ∷ t ∷ segments) = last_segment (t ∷ segments)

-- `segments.pop()`
unfoldable pub pop : List Text → List Text
pop [] = []
pop (s ∷ []) = []
pop (s ∷ t ∷ segments) = s ∷ pop (t ∷ segments)

-- `..`
unfoldable pub climb : List Text → List Text
unfolding last_segment pop text_eq
climb segments = elim (last_segment segments) [
  | none ↦ segments ++ up ∷ []
  | some l ↦ if not (text_eq l up) then pop segments else segments ++ up ∷ []
]

-- one round of the loop
unfoldable pub enter_segment : List Text → Text → List Text
unfolding climb text_eq
enter_segment segments segment =
    if text_eq segment [] || text_eq segment here
    then segments
    else if not (text_eq segment up)
    then segments ++ segment ∷ []
    else climb segments

unfoldable pub join_segments : List Text → List Text → List Text
unfolding enter_segment
join_segments segments [] = segments
join_segments segments (s ∷ rel) = join_segments (enter_segment segments s) rel

-- `dir === '' ? [] : dir.split('/')`
unfoldable pub dir_segments : Text → List Text
unfolding split_on
dir_segments [] = []
dir_segments (c ∷ dir) = split_on slash (c ∷ dir)

unfoldable pub join_posix : Text → Text → Text
unfolding join_segments dir_segments split_on join_on
join_posix dir rel = join_on slash (join_segments (dir_segments dir) (split_on slash rel))
