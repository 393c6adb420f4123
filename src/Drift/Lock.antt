-- ===== src/Drift/Lock.antt =====
-- typescript/packages/core/src/drift.ts, the lock file: its text, and the runs that read and write it.
pub mod Sorted
pub mod Stored
pub mod Accepted
pub mod Kept
pub mod Sample
mod Tests
use varar.Base.{
  ℕ, suc, Bool, true, false, not, ◌&&◌, ◌||◌, List, [], ◌∷◌, ◌++◌, map, Option, none, some, ◌==◌,
  ltb, leb, if◌then◌else◌, length, all, ◌≡◌,
}
use varar.Text.{Text, text_eq, codes, newline, decimal}
use varar.Text.Sets.{has}
use varar.Ast.{Doc}
use varar.Plan.{ExecutionPlan}
use varar.Drift.{BaselineExample, OathBaseline, Drift, detect_drift, derive_oath_baseline}

-- The values of JSON. Numbers that are not natural are left out, and so are properties that the types of
-- the lock file do not have.
mutual
  pub data Json : Type 0 where
    null : Json
    boolean : Bool → Json
    number : ℕ → Json
    string : Text → Json
    array : Items → Json
    object : Members → Json

  pub data Items : Type 0 where
    no_items : Items
    item : Json → Items → Items

  -- the properties of an object, in order
  pub data Members : Type 0 where
    no_members : Members
    member : Text → Json → Members → Members

-- `JSON.parse`, which may throw, and `JSON.stringify` with an indent of two spaces
pub record Codec : Type 0 where
  pub parse : Text → Option Json
  pub stringify : Json → Text

-- A `LockFile`. `oaths` has every path once; names of properties that all objects have, or like integers,
-- are no paths.
pub record LockFile : Type 0 where
  pub oaths : List (Text × OathBaseline)

abbrev pub member_of : Text → Members → Option Json
member_of k no_members = none
member_of k (member j v ms) = if text_eq j k then some v else member_of k ms

-- `isBaselineExample`, with the value
unfoldable pub example_of : Option Json → Option Json → Option BaselineExample
example_of (some (string name)) (some (number line)) = some (record { name = name; line = line })
example_of _ _ = none

unfoldable pub as_example : Json → Option BaselineExample
unfolding example_of text_eq
as_example (object ms) = example_of (member_of (codes "name") ms) (member_of (codes "line") ms)
as_example _ = none

unfoldable pub as_examples : Items → Option (List BaselineExample)
unfolding as_example
as_examples no_items = some []
as_examples (item v items) = elim (as_example v) [
  | none ↦ none
  | some e ↦ elim (as_examples items) [ none ↦ none | some es ↦ some (e ∷ es) ]
]

-- `isOathBaseline`, with the value
unfoldable pub baseline_of : Option Json → Option Json → Option OathBaseline
unfolding as_examples
baseline_of (some (string hash)) (some (array items)) = elim (as_examples items) [
  | none ↦ none
  | some es ↦ some (record { source_hash = hash; examples = es })
]
baseline_of _ _ = none

unfoldable pub as_baseline : Json → Option OathBaseline
unfolding baseline_of text_eq
as_baseline (object ms) =
    baseline_of (member_of (codes "sourceHash") ms) (member_of (codes "examples") ms)
as_baseline _ = none

unfoldable pub as_oaths : Members → Option (List (Text × OathBaseline))
unfolding as_baseline
as_oaths no_members = some []
as_oaths (member path v ms) = elim (as_baseline v) [
  | none ↦ none
  | some b ↦ elim (as_oaths ms) [ none ↦ none | some oaths ↦ some ((path, b) ∷ oaths) ]
]

-- `Object.entries` of an array
abbrev numbered_from : ℕ → Items → Members
numbered_from i no_items = no_members
numbered_from i (item v items) = member (decimal i) v (numbered_from (suc i) items)

abbrev entries_of : Option Json → Option Members
entries_of (some (object ms)) = some ms
entries_of (some (array items)) = some (numbered_from 0 items)
entries_of _ = none

abbrev is_two : Option Json → Bool
is_two (some (number n)) = n == 2
is_two _ = false

unfoldable pub as_lock : Json → Option LockFile
unfolding as_oaths text_eq decimal
as_lock (object ms) =
    if not (is_two (member_of (codes "version") ms))
    then none
    else elim (entries_of (member_of (codes "oaths") ms)) [
      | none ↦ none
      | some entries ↦ elim (as_oaths entries) [
        | none ↦ none
        | some oaths ↦ some (record { oaths = oaths })
      ]
    ]
as_lock _ = none

-- the order of `sort`, by code units
unfoldable pub text_le : Text → Text → Bool
text_le [] t = true
text_le (a ∷ s) [] = false
text_le (a ∷ s) (b ∷ t) = ltb a b || (a == b && text_le s t)

unfoldable pub insert_oath :
    Text × OathBaseline → List (Text × OathBaseline) → List (Text × OathBaseline)
unfolding text_le
insert_oath p [] = p ∷ []
insert_oath p (q ∷ oaths) = if text_le p.0 q.0 then p ∷ q ∷ oaths else q ∷ insert_oath p oaths

unfoldable pub sort_oaths : List (Text × OathBaseline) → List (Text × OathBaseline)
unfolding insert_oath
sort_oaths [] = []
sort_oaths (p ∷ oaths) = insert_oath p (sort_oaths oaths)

abbrev pub json_of_example : BaselineExample → Json
json_of_example e =
    object
      (member (codes "name") (string e.name) (member (codes "line") (number e.line) no_members))

abbrev pub items_of : List BaselineExample → Items
items_of [] = no_items
items_of (e ∷ es) = item (json_of_example e) (items_of es)

abbrev pub json_of_baseline : OathBaseline → Json
json_of_baseline b = object (
    member (codes "sourceHash") (string b.source_hash)
      (member (codes "examples") (array (items_of b.examples)) no_members))

abbrev pub members_of : List (Text × OathBaseline) → Members
members_of [] = no_members
members_of ((path, b) ∷ oaths) = member path (json_of_baseline b) (members_of oaths)

abbrev pub json_of_lock : List (Text × OathBaseline) → Json
json_of_lock oaths = object (
    member (codes "version") (number 2)
      (member (codes "oaths") (object (members_of oaths)) no_members))

-- `lock.oaths[path]`
unfoldable pub oath_at : Text → List (Text × OathBaseline) → Option OathBaseline
unfolding text_eq
oath_at path [] = none
oath_at path ((k, b) ∷ oaths) = if text_eq k path then some b else oath_at path oaths

-- `{ ...oaths, [path]: baseline }`
unfoldable pub set_oath :
    Text → OathBaseline → List (Text × OathBaseline) → List (Text × OathBaseline)
unfolding text_eq
set_oath path b [] = (path, b) ∷ []
set_oath path b ((k, c) ∷ oaths) =
    let rest = set_oath path b oaths in if text_eq k path then (k, b) ∷ oaths else (k, c) ∷ rest

-- the oaths whose paths are kept
unfoldable pub kept : List Text → List (Text × OathBaseline) → List (Text × OathBaseline)
unfolding has
kept keep [] = []
kept keep ((k, b) ∷ oaths) =
    let rest = kept keep oaths in if has k keep then (k, b) ∷ rest else rest

unfoldable pub stale_paths : List Text → List (Text × OathBaseline) → List Text
unfolding has
stale_paths keep [] = []
stale_paths keep ((k, b) ∷ oaths) =
    let rest = stale_paths keep oaths in if has k keep then rest else k ∷ rest

-- `pruneLockFile`
unfoldable pub prune_lock_file : LockFile → List Text → LockFile
unfolding kept
prune_lock_file lock keep_paths = record { oaths = kept keep_paths lock.oaths }

module _ (json : Codec) where
  unfoldable pub parse_lock_file : Text → Option LockFile
  unfolding as_lock
  parse_lock_file text = elim (json.parse text) [ none ↦ none | some parsed ↦ as_lock parsed ]

  unfoldable pub stringify_lock_file : LockFile → Text
  unfolding sort_oaths
  stringify_lock_file lock = json.stringify (json_of_lock (sort_oaths lock.oaths)) ++ newline ∷ []

  -- `text ? parseLockFile(text) : null`, of what the store holds
  unfoldable pub lock_in : Option Text → Option LockFile
  unfolding parse_lock_file
  lock_in none = none
  lock_in (some []) = none
  lock_in (some (c ∷ text)) = parse_lock_file (c ∷ text)

  abbrev pub oaths_in : Option LockFile → List (Text × OathBaseline)
  oaths_in none = []
  oaths_in (some lock) = lock.oaths

  -- what the store holds
  abbrev pub baselines : Option Text → List (Text × OathBaseline)
  baselines store = oaths_in (lock_in store)

  -- `reconcileDrift`: the drifts, and what the store holds behind it
  unfoldable pub reconcile_drift :
      (words : Text → List Text) (update : Bool) (oath_path source : Text) (doc : Doc)
      (plan : ExecutionPlan)
      → Option Text
      → List Drift × Option Text
  unfolding lock_in oath_at detect_drift derive_oath_baseline set_oath stringify_lock_file
  reconcile_drift words update oath_path source doc plan store =
      let oaths = baselines store in
      let drifts = if update then [] else detect_drift words (oath_at oath_path oaths) doc plan in
      let next = set_oath oath_path (derive_oath_baseline source doc plan) oaths in
      if update || length drifts == 0
      then (drifts, some (stringify_lock_file (record { oaths = next })))
      else (drifts, store)

  -- `pruneBaselines`: the stale paths, and what the store holds behind it
  unfoldable pub prune_baselines :
      (keep_paths : List Text) (update : Bool) → Option Text → List Text × Option Text
  unfolding lock_in stale_paths stringify_lock_file prune_lock_file
  prune_baselines keep_paths update store = elim (lock_in store) [
    | none ↦ ([], store)
    | some lock ↦
        let stale = stale_paths keep_paths lock.oaths in
        if update && not (length stale == 0)
        then (stale, some (stringify_lock_file (prune_lock_file lock keep_paths)))
        else (stale, store)
  ]
