-- ===== src/DeepEqual.antt =====
-- typescript/packages/core/src/deep-equal.ts: structural equality of values.
pub mod Copies
mod Tests
use varar.Base.{ℕ, Bool, true, false, ◌&&◌, ◌||◌, Option, none, some, ◌==◌}
use varar.Value.{
  Value, undefined, null, bool, num, str, function, date, array, object, map_of, set_of, Values,
  nil, cons, Fields, end, field, Entries, empty, entry, object_is, field_of, entry_of, has_value,
  count_fields, count_values, count_entries,
}

-- `a.getTime() === b.getTime()`: the time value of an invalid date is NaN
abbrev same_time : Option ℕ → Option ℕ → Bool
same_time none t = false
same_time (some s) none = false
same_time (some s) (some t) = s == t

-- What `deepEqual` does behind its first line, and its loops over the parts of `a`. A call of
-- `deepEqual` on the parts is `object_is v w || deep v w`.
unfoldable mutual
  pub deep : Value → Value → Bool
  deep (date a s) (date b t) = same_time s t
  deep (map_of a es) (map_of b fs) = count_entries es == count_entries fs && all_entries es fs
  deep (set_of a vs) (set_of b us) = count_values vs == count_values us && all_members vs us
  deep (array a vs) (array b us) = count_values vs == count_values us && all_values vs us
  deep (object a fs) (object b gs) = count_fields fs == count_fields gs && all_fields fs gs
  deep _ _ = false

  pub all_entries : Entries → Entries → Bool
  all_entries empty fs = true
  all_entries (entry k v es) fs =
      elim (entry_of k fs) [ none ↦ false | some w ↦ object_is v w || deep v w ]
      && all_entries es fs

  pub all_members : Values → Values → Bool
  all_members nil us = true
  all_members (cons v vs) us = has_value v us && all_members vs us

  pub all_values : Values → Values → Bool
  all_values nil us = true
  all_values (cons v vs) nil = false
  all_values (cons v vs) (cons u us) = (object_is v u || deep v u) && all_values vs us

  pub all_fields : Fields → Fields → Bool
  all_fields end gs = true
  all_fields (field k v fs) gs =
      elim (field_of k gs) [ none ↦ false | some w ↦ object_is v w || deep v w ] && all_fields fs gs

unfoldable pub deep_equal : Value → Value → Bool
unfolding object_is deep
deep_equal a b = object_is a b || deep a b
