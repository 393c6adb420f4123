-- ===== src/Drift/Lock/Stored.antt =====
-- The text of a lock file is read as the lock file that was written.
use varar.Base.{
  ℕ, Bool, true, false, not, ◌&&◌, List, [], ◌∷◌, ◌++◌, map, none, some, ◌≡◌, refl, ◌∙◌, arith, All,
  all, leb,
}
use varar.Text.{Text, codes, newline}
use varar.Text.Sets.{has, IsTokenSet}
use varar.Drift.{BaselineExample, OathBaseline}
use varar.Drift.Lock.{
  Json, null, boolean, number, string, array, object, Items, no_items, item, Members, no_members,
  member, Codec, LockFile, member_of, example_of, as_example, as_examples, baseline_of, as_baseline,
  as_oaths, as_lock, sort_oaths, items_of, json_of_baseline, members_of, json_of_lock,
  parse_lock_file, stringify_lock_file, lock_in,
}
use varar.Drift.Lock.Sorted.{Oaths, path_of, sort_oaths-All, sort_oaths-IsTokenSet}

-- the properties that every object has by its prototype
abbrev inherited : List Text
inherited =
    codes "__proto__"
    ∷ codes "constructor"
    ∷ codes "hasOwnProperty"
    ∷ codes "isPrototypeOf"
    ∷ codes "propertyIsEnumerable"
    ∷ codes "toLocaleString"
    ∷ codes "toString"
    ∷ codes "valueOf"
    ∷ codes "__defineGetter__"
    ∷ codes "__defineSetter__"
    ∷ codes "__lookupGetter__"
    ∷ codes "__lookupSetter__"
    ∷ []

-- Names like integers come first in an object, and inherited ones are found without being written.
unfoldable pub is_ordinary_name : Text → Bool
unfolding has
is_ordinary_name k = not (all (λ c. leb b'0' c && leb c b'9') k) && not (has k inherited)

-- Every object in the value has ordinary names, each once.
abbrev mutual
  pub IsOrdinary : Json → Type 0
  IsOrdinary null = Unit
  IsOrdinary (boolean b) = Unit
  IsOrdinary (number n) = Unit
  IsOrdinary (string s) = Unit
  IsOrdinary (array items) = HasOrdinaryItems items
  IsOrdinary (object ms) = HasOrdinaryMembers ms

  pub HasOrdinaryItems : Items → Type 0
  HasOrdinaryItems no_items = Unit
  HasOrdinaryItems (item v items) = IsOrdinary v × HasOrdinaryItems items

  pub HasOrdinaryMembers : Members → Type 0
  HasOrdinaryMembers no_members = Unit
  HasOrdinaryMembers (member k v ms) =
      (is_ordinary_name k ≡ true) × (member_of k ms ≡ none) × IsOrdinary v × HasOrdinaryMembers ms

-- `JSON.parse` reads what `JSON.stringify` wrote, also with a newline behind it.
pub record IsCodec (json : Codec) : Type 0 where
  pub reads_written :
      (j : Json) → IsOrdinary j → json.parse (json.stringify j ++ newline ∷ []) ≡ some j

-- The paths of a lock file are ordinary names, each once.
abbrev pub AreOrdinary : Oaths → Type 0
AreOrdinary oaths = All (λ p. is_ordinary_name p.0 ≡ true) oaths × IsTokenSet (map path_of oaths)

items_of-HasOrdinaryItems : (es : List BaselineExample) → HasOrdinaryItems (items_of es)
unfolding is_ordinary_name
items_of-HasOrdinaryItems [] = tt
items_of-HasOrdinaryItems (e ∷ es) =
    ((refl, refl, tt, (refl, refl, tt, tt)), items_of-HasOrdinaryItems es)

json_of_baseline-IsOrdinary : (b : OathBaseline) → IsOrdinary (json_of_baseline b)
unfolding is_ordinary_name
json_of_baseline-IsOrdinary b =
    (refl, refl, tt, (refl, refl, items_of-HasOrdinaryItems b.examples, tt))

member_of-members_of :
    (k : Text) (oaths : Oaths)
    → has k (map path_of oaths) ≡ false
    → member_of k (members_of oaths) ≡ none
unfolding has
member_of-members_of k [] h = refl
member_of-members_of k ((j, b) ∷ oaths) h = ground (arith, member_of-members_of k oaths)

members_of-HasOrdinaryMembers :
    (oaths : Oaths) → AreOrdinary oaths → HasOrdinaryMembers (members_of oaths)
members_of-HasOrdinaryMembers [] h = tt
members_of-HasOrdinaryMembers ((k, b) ∷ oaths) ((o, a), (n, d)) = (
  o,
  member_of-members_of k oaths n,
  json_of_baseline-IsOrdinary b,
  members_of-HasOrdinaryMembers oaths (a, d),
)

json_of_lock-IsOrdinary : (oaths : Oaths) → AreOrdinary oaths → IsOrdinary (json_of_lock oaths)
unfolding is_ordinary_name
json_of_lock-IsOrdinary oaths h =
    (refl, refl, tt, (refl, refl, members_of-HasOrdinaryMembers oaths h, tt))

as_examples-items_of : (es : List BaselineExample) → as_examples (items_of es) ≡ some es
unfolding as_examples as_example example_of
as_examples-items_of [] = refl
as_examples-items_of (e ∷ es) = rw (as_examples, as_examples-items_of es)

as_baseline_lem : (b : OathBaseline) → as_baseline (json_of_baseline b) ≡ some b
unfolding as_baseline baseline_of
as_baseline_lem b = rw (as_baseline, baseline_of, as_examples-items_of b.examples)

as_oaths-members_of : (oaths : Oaths) → as_oaths (members_of oaths) ≡ some oaths
unfolding as_oaths
as_oaths-members_of [] = refl
as_oaths-members_of ((k, b) ∷ oaths) = rw (as_oaths, as_baseline_lem b, as_oaths-members_of oaths)

as_lock_lem : (oaths : Oaths) → as_lock (json_of_lock oaths) ≡ some (record { oaths = oaths })
unfolding as_lock
as_lock_lem oaths = rw (as_lock, as_oaths-members_of oaths)

sort_oaths-AreOrdinary : (oaths : Oaths) → AreOrdinary oaths → AreOrdinary (sort_oaths oaths)
sort_oaths-AreOrdinary oaths (a, d) = (sort_oaths-All _ oaths a, sort_oaths-IsTokenSet oaths d)

module _ (json : Codec) (law : IsCodec json) where
  -- A lock file whose paths are ordinary names is read as it was written, with the paths in order, if
  -- `JSON` reads what it wrote.
  pub parse_lock_file-stringify_lock_file :
      (lock : LockFile)
      → AreOrdinary lock.oaths
      → parse_lock_file json (stringify_lock_file json lock)
        ≡ some (record { oaths = sort_oaths lock.oaths })
  unfolding parse_lock_file stringify_lock_file
  parse_lock_file-stringify_lock_file lock h =
      let e : json.parse (json.stringify (json_of_lock (sort_oaths lock.oaths)) ++ newline ∷ [])
          ≡ some (json_of_lock (sort_oaths lock.oaths)) =
        law.reads_written _
          (json_of_lock-IsOrdinary (sort_oaths lock.oaths) (sort_oaths-AreOrdinary lock.oaths h)) in
      rw (parse_lock_file, e) (as_lock_lem (sort_oaths lock.oaths))

  lock_in-text :
      (t : Text) (c : ℕ) → lock_in json (some (t ++ c ∷ [])) ≡ parse_lock_file json (t ++ c ∷ [])
  unfolding lock_in
  lock_in-text [] c = refl
  lock_in-text (d ∷ t) c = refl

  pub lock_in-stringify_lock_file :
      (lock : LockFile)
      → AreOrdinary lock.oaths
      → lock_in json (some (stringify_lock_file json lock))
        ≡ some (record { oaths = sort_oaths lock.oaths })
  lock_in-stringify_lock_file lock h =
      unfold stringify_lock_file in
      (lock_in-text (json.stringify (json_of_lock (sort_oaths lock.oaths))) newline
        ∙ parse_lock_file-stringify_lock_file lock h)
