-- ===== src/DeepEqual/Tests.antt =====
-- Runs of deep-equal.ts, and its theorem at a concrete value.
use varar.Base.{true, false, some, ◌≡◌, refl}
use varar.Text.{codes}
use varar.Value.{
  same_key, Value, undefined, num, str, date, array, object, map_of, nil, cons, end, field, empty,
  entry,
}
use varar.DeepEqual.{deep_equal}

-- { at: new Date(7), in: [1, { of: "x" }] }, and as a map's value
abbrev nested : Value
nested = map_of 0 (
    entry (str (codes "k"))
      (object 1 (
        field (codes "at") (date 2 (some 7)) (
          field (codes "in")
            (array 3
              (cons (num 1) (cons (object 4 (field (codes "of") (str (codes "x")) end)) nil)))
            end)))
      empty)

-- +0 and -0 are two numbers, but one key of a map.
zeros_differ : deep_equal (num 0) (num 0x8000000000000000) ≡ false
unfolding deep_equal
zeros_differ = refl

zero_keys :
    deep_equal
      (map_of 0 (entry (num 0) undefined empty))
      (map_of 1 (entry (num 0x8000000000000000) undefined empty))
    ≡ true
unfolding deep_equal same_key
zero_keys = refl

-- An array has as many elements as it has.
lengths_count :
    deep_equal (array 0 (cons (num 1) nil)) (array 1 (cons (num 1) (cons (num 2) nil))) ≡ false
unfolding deep_equal
lengths_count = refl
