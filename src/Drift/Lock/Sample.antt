-- ===== src/Drift/Lock/Sample.antt =====
-- A codec that reads what it wrote, for the runs of the code: a prefix code with the length of each text.
use varar.Base.{
  ℕ, zero, suc, ◌+◌, ◌-◌, ◌≤◌, true, false, [], ◌∷◌, ◌++◌, Option, none, some, ◌≡◌, refl, ap, ◌∙◌,
  arith, length, length-append, take, drop,
}
use varar.Text.{Text, newline}
use varar.Drift.Lock.{
  Json, null, boolean, number, string, array, object, Items, no_items, item, Members, no_members,
  member, Codec,
}
use varar.Drift.Lock.Stored.{IsCodec}

abbrev mutual
  write : Json → Text → Text
  write null r = 0 ∷ r
  write (boolean false) r = 1 ∷ 0 ∷ r
  write (boolean true) r = 1 ∷ 1 ∷ r
  write (number n) r = 2 ∷ n ∷ r
  write (string s) r = 3 ∷ length s ∷ s ++ r
  write (array items) r = 4 ∷ write_items items r
  write (object ms) r = 5 ∷ write_members ms r

  write_items : Items → Text → Text
  write_items no_items r = 0 ∷ r
  write_items (item v items) r = 1 ∷ write v (write_items items r)

  write_members : Members → Text → Text
  write_members no_members r = 0 ∷ r
  write_members (member k v ms) r = 1 ∷ length k ∷ k ++ write v (write_members ms r)

abbrev as_array : Option (Items × Text) → Option (Json × Text)
as_array none = none
as_array (some (items, r)) = some (array items, r)

abbrev as_object : Option (Members × Text) → Option (Json × Text)
as_object none = none
as_object (some (ms, r)) = some (object ms, r)

abbrev with_item : Json → Option (Items × Text) → Option (Items × Text)
with_item v none = none
with_item v (some (items, r)) = some (item v items, r)

abbrev with_member : Text → Json → Option (Members × Text) → Option (Members × Text)
with_member k v none = none
with_member k v (some (ms, r)) = some (member k v ms, r)

abbrev first_then {ℓ} : {A : Type ℓ} → Option (Json × Text) → (Json → Text → Option A) → Option A
first_then none f = none
first_then (some (v, r)) f = f v r

abbrev mutual
  read : ℕ → Text → Option (Json × Text)
  read zero t = none
  read (suc n) [] = none
  read (suc n) (zero ∷ r) = some (null, r)
  read (suc n) (suc zero ∷ []) = none
  read (suc n) (suc zero ∷ zero ∷ r) = some (boolean false, r)
  read (suc n) (suc zero ∷ suc b ∷ r) = some (boolean true, r)
  read (suc n) (suc (suc zero) ∷ []) = none
  read (suc n) (suc (suc zero) ∷ k ∷ r) = some (number k, r)
  read (suc n) (suc (suc (suc zero)) ∷ []) = none
  read (suc n) (suc (suc (suc zero)) ∷ k ∷ r) = some (string (take k r), drop k r)
  read (suc n) (suc (suc (suc (suc zero))) ∷ r) = as_array (read_items n r)
  read (suc n) (suc (suc (suc (suc (suc m)))) ∷ r) = as_object (read_members n r)

  read_items : ℕ → Text → Option (Items × Text)
  read_items zero t = none
  read_items (suc n) [] = none
  read_items (suc n) (zero ∷ r) = some (no_items, r)
  read_items (suc n) (suc m ∷ r) = first_then (read n r) (λ v s. with_item v (read_items n s))

  read_members : ℕ → Text → Option (Members × Text)
  read_members zero t = none
  read_members (suc n) [] = none
  read_members (suc n) (zero ∷ r) = some (no_members, r)
  read_members (suc n) (suc m ∷ []) = none
  read_members (suc n) (suc m ∷ k ∷ r) =
      first_then (read n (drop k r)) (λ v s. with_member (take k r) v (read_members n s))

take-own : (s t : Text) → take (length s) (s ++ t) ≡ s
take-own [] t = refl
take-own (c ∷ s) t = ap (λ r. c ∷ r) (take-own s t)

drop-own : (s t : Text) → drop (length s) (s ++ t) ≡ t
drop-own [] t = refl
drop-own (c ∷ s) t = drop-own s t

-- The depth of a value is enough fuel.
abbrev mutual
  size : Json → ℕ
  size (array items) = suc (size_items items)
  size (object ms) = suc (size_members ms)
  size _ = 1

  size_items : Items → ℕ
  size_items no_items = 1
  size_items (item v items) = suc (size v + size_items items)

  size_members : Members → ℕ
  size_members no_members = 1
  size_members (member k v ms) = suc (size v + size_members ms)

mutual
  read-write : (n : ℕ) (j : Json) (r : Text) → size j ≤ n → read n (write j r) ≡ some (j, r)
  read-write zero null r h = elim h [ ]
  read-write (suc n) null r h = refl
  read-write (suc n) (boolean false) r h = refl
  read-write (suc n) (boolean true) r h = refl
  read-write (suc n) (number k) r h = refl
  read-write (suc n) (string s) r h = rw (take-own s r, drop-own s r)
  read-write (suc n) (array items) r h = ap as_array (read_items-write n items r (omega arith))
  read-write (suc n) (object ms) r h = ap as_object (read_members-write n ms r (omega arith))
  read-write zero (boolean b) r h = elim h [ ]
  read-write zero (number k) r h = elim h [ ]
  read-write zero (string s) r h = elim h [ ]
  read-write zero (array items) r h = elim h [ ]
  read-write zero (object ms) r h = elim h [ ]

  read_items-write :
      (n : ℕ) (items : Items) (r : Text)
      → size_items items ≤ n
      → read_items n (write_items items r) ≡ some (items, r)
  read_items-write zero no_items r h = elim h [ ]
  read_items-write zero (item v items) r h = elim h [ ]
  read_items-write (suc n) no_items r h = refl
  read_items-write (suc n) (item v items) r h =
      ap (λ o. first_then o (λ w s. with_item w (read_items n s)))
        (read-write n v (write_items items r) (omega arith))
      ∙ ap (with_item v) (read_items-write n items r (omega arith))

  read_members-write :
      (n : ℕ) (ms : Members) (r : Text)
      → size_members ms ≤ n
      → read_members n (write_members ms r) ≡ some (ms, r)
  read_members-write zero no_members r h = elim h [ ]
  read_members-write zero (member k v ms) r h = elim h [ ]
  read_members-write (suc n) no_members r h = refl
  read_members-write (suc n) (member k v ms) r h =
      let rest : Text = write v (write_members ms r) in
      ap
        (λ t.
          first_then (read n t)
            (λ w s. with_member (take (length k) (k ++ rest)) w (read_members n s)))
        (drop-own k rest)
      ∙ ap
          (λ o.
            first_then o (λ w s. with_member (take (length k) (k ++ rest)) w (read_members n s)))
          (read-write n v (write_members ms r) (omega arith))
      ∙ ap (λ t. with_member t v (read_members n (write_members ms r))) (take-own k rest)
      ∙ ap (with_member k v) (read_members-write n ms r (omega arith))

-- The text has the fuel in front; the newline behind it is taken off.
abbrev read_all : Text → Option Json
read_all [] = none
read_all (n ∷ t) = elim (read n (take (length t - 1) t)) [ none ↦ none | some (j, r) ↦ some j ]

abbrev pub codec : Codec
codec = record { parse = read_all; stringify = λ j. size j ∷ write j [] }

read_all_written : (j : Json) → read_all ((size j ∷ write j []) ++ newline ∷ []) ≡ some j
read_all_written j =
    let w : Text = write j [] in
    let n : length (w ++ newline ∷ []) - 1 ≡ length w =
      omega (arith, length-append w (newline ∷ [])) in
    ap
      (λ k. elim (read (size j) (take k (w ++ newline ∷ []))) [
        | none ↦ none
        | some (i, r) ↦ some i
      ])
      n
    ∙ ap (λ t. elim (read (size j) t) [ none ↦ none | some (i, r) ↦ some i ])
        (take-own w (newline ∷ []))
    ∙ ap (λ o. elim o [ none ↦ none | some (i, r) ↦ some i ])
        (read-write (size j) j [] (omega arith))

pub IsCodec-codec : IsCodec codec
IsCodec-codec = record { reads_written = λ j o. read_all_written j }
