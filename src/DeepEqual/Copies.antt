-- ===== src/DeepEqual/Copies.antt =====
-- A value and a copy of it, built anew with other identities, are equal.
use varar.Base.{ℕ, suc, [], ◌∷◌, Bool, true, false, ◌||◌, none, some, ◌≡◌, ◌≢◌, refl, ap, arith}
use varar.Text.{Text, text_eq}
use varar.Text.Laws.{text_eq_iff}
use varar.Value.{
  Value, undefined, null, bool, num, str, function, date, array, object, map_of, set_of, Values,
  nil, cons, Fields, end, field, Entries, empty, entry, object_is, same_key, field_of, entry_of,
  count_fields, count_values, count_entries,
}
use varar.DeepEqual.{deep, all_entries, all_members, all_values, all_fields}

-- Every date, array, object, map and set is a new one; functions, map keys and set elements are the
-- old ones.
unfoldable mutual
  pub copy : (ℕ → ℕ) → Value → Value
  copy f undefined = undefined
  copy f null = null
  copy f (bool b) = bool b
  copy f (num n) = num n
  copy f (str s) = str s
  copy f (function i) = function i
  copy f (date i t) = date (f i) t
  copy f (array i vs) = array (f i) (copy_values f vs)
  copy f (object i fs) = object (f i) (copy_fields f fs)
  copy f (map_of i es) = map_of (f i) (copy_entries f es)
  copy f (set_of i vs) = set_of (f i) vs

  pub copy_values : (ℕ → ℕ) → Values → Values
  copy_values f nil = nil
  copy_values f (cons v vs) = cons (copy f v) (copy_values f vs)

  pub copy_fields : (ℕ → ℕ) → Fields → Fields
  copy_fields f end = end
  copy_fields f (field k v fs) = field k (copy f v) (copy_fields f fs)

  pub copy_entries : (ℕ → ℕ) → Entries → Entries
  copy_entries f empty = empty
  copy_entries f (entry k v es) = entry k (copy f v) (copy_entries f es)

-- The keys of an object, and of a map, differ. (The language sees to that.) Dates are valid.
unfoldable mutual
  pub IsProper : Value → Type 0
  IsProper (date i t) = t ≢ none
  IsProper (array i vs) = AreProper vs
  IsProper (object i fs) = HaveDistinctNames fs
  IsProper (map_of i es) = HaveDistinctKeys es
  IsProper _ = Unit

  pub AreProper : Values → Type 0
  AreProper nil = Unit
  AreProper (cons v vs) = IsProper v × AreProper vs

  pub HaveDistinctNames : Fields → Type 0
  HaveDistinctNames end = Unit
  HaveDistinctNames (field k v fs) = (field_of k fs ≡ none) × IsProper v × HaveDistinctNames fs

  pub HaveDistinctKeys : Entries → Type 0
  HaveDistinctKeys empty = Unit
  HaveDistinctKeys (entry k v es) = (entry_of k es ≡ none) × IsProper v × HaveDistinctKeys es

text_eq_sym : (s t : Text) → text_eq s t ≡ text_eq t s
unfolding text_eq
text_eq_sym [] [] = refl
text_eq_sym [] (b ∷ t) = refl
text_eq_sym (a ∷ s) [] = refl
text_eq_sym (a ∷ s) (b ∷ t) = ground (arith, text_eq_sym s t)

text_eq_refl : (s : Text) → text_eq s s ≡ true
text_eq_refl s = (text_eq_iff s s).1 refl

object_is_refl : (v : Value) → object_is v v ≡ true
unfolding object_is
object_is_refl (bool true) = refl
object_is_refl (bool false) = refl
object_is_refl (str s) = text_eq_refl s
object_is_refl _ = ground arith

same_key_refl : (v : Value) → same_key v v ≡ true
unfolding same_key object_is
same_key_refl (bool true) = refl
same_key_refl (bool false) = refl
same_key_refl (str s) = text_eq_refl s
same_key_refl _ = ground arith

same_key_sym : (v w : Value) → same_key v w ≡ same_key w v
unfolding same_key object_is
same_key_sym (bool true) (bool true) = refl
same_key_sym (bool true) (bool false) = refl
same_key_sym (bool false) (bool true) = refl
same_key_sym (bool false) (bool false) = refl
same_key_sym (str s) (str t) = text_eq_sym s t
same_key_sym _ _ = ground arith

count_values-copy_values :
    (f : ℕ → ℕ) (vs : Values) → count_values (copy_values f vs) ≡ count_values vs
unfolding copy
count_values-copy_values f nil = refl
count_values-copy_values f (cons v vs) = ap suc (count_values-copy_values f vs)

count_fields-copy_fields :
    (f : ℕ → ℕ) (fs : Fields) → count_fields (copy_fields f fs) ≡ count_fields fs
unfolding copy
count_fields-copy_fields f end = refl
count_fields-copy_fields f (field k v fs) = ap suc (count_fields-copy_fields f fs)

count_entries-copy_entries :
    (f : ℕ → ℕ) (es : Entries) → count_entries (copy_entries f es) ≡ count_entries es
unfolding copy
count_entries-copy_entries f empty = refl
count_entries-copy_entries f (entry k v es) = ap suc (count_entries-copy_entries f es)

all_members-cons :
    (vs us : Values) (u : Value) → all_members vs us ≡ true → all_members vs (cons u us) ≡ true
unfolding deep
all_members-cons nil us u h = refl
all_members-cons (cons v vs) us u h = ground (arith, all_members-cons vs us u)

all_members_self : (vs : Values) → all_members vs vs ≡ true
unfolding deep
all_members_self nil = refl
all_members_self (cons v vs) =
    ground (arith, same_key_refl v, all_members-cons vs vs v, all_members_self vs)

all_fields-field :
    (fs gs : Fields) (k : Text) (w : Value)
    → field_of k fs ≡ none
    → all_fields fs gs ≡ true
    → all_fields fs (field k w gs) ≡ true
unfolding deep
all_fields-field end gs k w n h = refl
all_fields-field (field j v fs) gs k w n h =
    ground (arith, text_eq_sym j k, all_fields-field fs gs k w)

all_entries-entry :
    (es fs : Entries) (k w : Value)
    → entry_of k es ≡ none
    → all_entries es fs ≡ true
    → all_entries es (entry k w fs) ≡ true
unfolding deep
all_entries-entry empty fs k w n h = refl
all_entries-entry (entry j v es) fs k w n h =
    ground (arith, same_key_sym j k, all_entries-entry es fs k w)

-- the two calls of `deepEqual` on a part and its copy
abbrev equals_copy : (ℕ → ℕ) → Value → Bool
equals_copy f v = object_is v (copy f v) || deep v (copy f v)

mutual
  unfolding deep copy IsProper object_is

  equal_copy : (f : ℕ → ℕ) (v : Value) → IsProper v → equals_copy f v ≡ true
  equal_copy f undefined p = refl
  equal_copy f null p = refl
  equal_copy f (bool true) p = refl
  equal_copy f (bool false) p = refl
  equal_copy f (num n) p = ground arith
  equal_copy f (str s) p = ground (arith, text_eq_refl s)
  equal_copy f (function i) p = ground arith
  equal_copy f (date i none) p = absurd (p refl)
  equal_copy f (date i (some t)) p = ground arith
  equal_copy f (array i vs) p = ground (arith, count_values-copy_values f vs, equal_values f vs p)
  equal_copy f (object i fs) p = ground (arith, count_fields-copy_fields f fs, equal_fields f fs p)
  equal_copy f (map_of i es) p =
      ground (arith, count_entries-copy_entries f es, equal_entries f es p)
  equal_copy f (set_of i vs) p = ground (arith, all_members_self vs)

  equal_values : (f : ℕ → ℕ) (vs : Values) → AreProper vs → all_values vs (copy_values f vs) ≡ true
  equal_values f nil p = refl
  equal_values f (cons v vs) p = ground (arith, equal_copy f v p.0, equal_values f vs p.1)

  equal_fields :
      (f : ℕ → ℕ) (fs : Fields) → HaveDistinctNames fs → all_fields fs (copy_fields f fs) ≡ true
  equal_fields f end p = refl
  equal_fields f (field k v fs) p = ground (
    arith,
    text_eq_refl k,
    equal_copy f v p.1,
    all_fields-field fs (copy_fields f fs) k (copy f v) p.0 (equal_fields f fs p.2),
  )

  equal_entries :
      (f : ℕ → ℕ) (es : Entries) → HaveDistinctKeys es → all_entries es (copy_entries f es) ≡ true
  equal_entries f empty p = refl
  equal_entries f (entry k v es) p = ground (
    arith,
    same_key_refl k,
    equal_copy f v p.1,
    all_entries-entry es (copy_entries f es) k (copy f v) p.0 (equal_entries f es p.2),
  )
