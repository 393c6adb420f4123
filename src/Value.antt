-- ===== src/Value.antt =====
-- The JavaScript values (`unknown`) that step handlers take and return, as far as
-- typescript/packages/core/src looks into them. Cyclic values and sparse arrays are left out.
use varar.Base.{
  ℕ, suc, Bool, true, false, ◌||◌, List, [], ◌∷◌, Option, none, some, ◌==◌, if◌then◌else◌,
}
use varar.Text.{Text, text_eq}

-- An object, array, date, map, set or function carries its identity. A number is its IEEE 754 bit
-- pattern, with one pattern for NaN, and so is the time value of a date (`none` is an invalid date).
mutual
  pub data Value : Type 0 where
    undefined : Value
    null : Value
    bool : Bool → Value
    num : ℕ → Value
    str : Text → Value
    function : ℕ → Value
    date : ℕ → Option ℕ → Value
    array : ℕ → Values → Value
    object : ℕ → Fields → Value
    map_of : ℕ → Entries → Value
    set_of : ℕ → Values → Value

  -- the elements of an array or set
  pub data Values : Type 0 where
    nil : Values
    cons : Value → Values → Values

  -- the own enumerable properties of an object, in order
  pub data Fields : Type 0 where
    end : Fields
    field : Text → Value → Fields → Fields

  -- the keys and values of a map, in order
  pub data Entries : Type 0 where
    empty : Entries
    entry : Value → Value → Entries → Entries

abbrev pub to_list : Values → List Value
to_list nil = []
to_list (cons v vs) = v ∷ to_list vs

abbrev pub from_list : List Value → Values
from_list [] = nil
from_list (v ∷ vs) = cons v (from_list vs)

abbrev bool_eq : Bool → Bool → Bool
bool_eq true b = b
bool_eq false true = false
bool_eq false false = true

-- `Object.is`: objects by identity, all else by value
unfoldable pub object_is : Value → Value → Bool
unfolding text_eq
object_is undefined undefined = true
object_is null null = true
object_is (bool a) (bool b) = bool_eq a b
object_is (num a) (num b) = a == b
object_is (str a) (str b) = text_eq a b
object_is (function a) (function b) = a == b
object_is (date a _) (date b _) = a == b
object_is (array a _) (array b _) = a == b
object_is (object a _) (object b _) = a == b
object_is (map_of a _) (map_of b _) = a == b
object_is (set_of a _) (set_of b _) = a == b
object_is _ _ = false

-- the bit pattern of -0
abbrev minus_zero : ℕ
minus_zero = 0x8000000000000000

abbrev plus_zero_for : ℕ → ℕ
plus_zero_for n = if n == minus_zero then 0 else n

-- the equality of map and set keys: as `Object.is`, but +0 and -0 are one key
unfoldable pub same_key : Value → Value → Bool
unfolding object_is
same_key (num a) (num b) = plus_zero_for a == plus_zero_for b
same_key a b = object_is a b

abbrev pub field_of : Text → Fields → Option Value
field_of k end = none
field_of k (field j v fs) = if text_eq j k then some v else field_of k fs

abbrev pub count_fields : Fields → ℕ
count_fields end = 0
count_fields (field k v fs) = suc (count_fields fs)

abbrev pub count_values : Values → ℕ
count_values nil = 0
count_values (cons v vs) = suc (count_values vs)

abbrev pub count_entries : Entries → ℕ
count_entries empty = 0
count_entries (entry k v es) = suc (count_entries es)

-- `map.get`, and `none` where `map.has` is false
abbrev pub entry_of : Value → Entries → Option Value
entry_of k empty = none
entry_of k (entry j v es) = if same_key j k then some v else entry_of k es

-- `set.has`
abbrev pub has_value : Value → Values → Bool
has_value v nil = false
has_value v (cons u us) = same_key u v || has_value v us
