-- ===== src/Text.antt =====
-- The strings of the source as lists of UTF-16 code units, and the string methods that
-- typescript/packages/core/src calls (`slice`, `trim`, `indexOf`, `split`, `===`).
use varar.Base.{
  ℕ, zero, suc, ◌+◌, ◌-◌, ◌/◌, ◌%◌, Bool, true, false, ◌&&◌, ◌||◌, not, List, [], ◌∷◌, ◌++◌, Option,
  none, some, ltb, leb, ◌==◌, if◌then◌else◌, take, drop, length,
}
use mathlib.Core.Option
pub mod Laws
pub mod Pieces
pub mod Sets
use Prim.Native.Char.{code}
use Prim.Native.String.{String}

abbrev pub Text : Type 0
Text = List ℕ

abbrev pub newline : ℕ
newline = 0x0a

-- `\s` of a regular expression; the characters that `trim` removes are the same.
unfoldable pub is_space : ℕ → Bool
is_space c =
    (leb 0x09 c && leb c 0x0d)
    || c == 0x20
    || c == 0xa0
    || c == 0x1680
    || (leb 0x2000 c && leb c 0x200a)
    || c == 0x2028
    || c == 0x2029
    || c == 0x202f
    || c == 0x205f
    || c == 0x3000
    || c == 0xfeff

-- `s.slice(a, b)` with 0 ≤ a and 0 ≤ b
abbrev pub slice : Text → ℕ → ℕ → Text
slice s a b = take (b - a) (drop a s)

-- the number of white space characters in front
unfoldable pub leading : Text → ℕ
unfolding is_space
leading [] = 0
leading (c ∷ s) = if is_space c then suc (leading s) else 0

abbrev pub trim_start : Text → Text
trim_start s = drop (leading s) s

-- the length without the white space at the end
unfoldable pub trimmed_length : Text → ℕ
unfolding is_space
trimmed_length [] = 0
trimmed_length (c ∷ s) = if is_space c && trimmed_length s == 0 then 0 else suc (trimmed_length s)

abbrev pub trim_end : Text → Text
trim_end s = take (trimmed_length s) s

abbrev pub trim : Text → Text
trim s = trim_end (trim_start s)

unfoldable pub text_eq : Text → Text → Bool
text_eq [] [] = true
text_eq (a ∷ s) (b ∷ t) = a == b && text_eq s t
text_eq _ _ = false

-- `s.indexOf(c)` for one character; `none` is -1
unfoldable pub index_of : ℕ → Text → Option ℕ
index_of c [] = none
index_of c (d ∷ s) = if d == c then some 0 else Option.map suc (index_of c s)

-- `s.lastIndexOf(c)` for one character; `none` is -1
unfoldable pub last_index_of : ℕ → Text → Option ℕ
last_index_of c [] = none
last_index_of c (d ∷ s) = elim (last_index_of c s) [
  | some i ↦ some (suc i)
  | none ↦ if d == c then some 0 else none
]

-- `s.split(c)` for one character
unfoldable pub split_cons : ℕ → List Text → List Text
split_cons c [] = (c ∷ []) ∷ []
split_cons c (t ∷ ts) = (c ∷ t) ∷ ts

unfoldable pub split_on : ℕ → Text → List Text
unfolding split_cons
split_on c [] = [] ∷ []
split_on c (d ∷ s) = let rest = split_on c s in if d == c then [] ∷ rest else split_cons d rest

-- `ts.join(c)` for one character
unfoldable pub join_on : ℕ → List Text → Text
join_on c [] = []
join_on c (t ∷ []) = t
join_on c (t ∷ u ∷ ts) = t ++ (c ∷ join_on c (u ∷ ts))

-- The UTF-16 code units of a literal; the literals here are ASCII.
abbrev pub codes : String → Text
codes String.[] = []
codes (String.◌∷◌ c s) = code c ∷ codes s

-- `String(n)` of a natural number: `fuel` is at least the number of digits
digits_from : ℕ → ℕ → Text → Text
digits_from zero n out = out
digits_from (suc fuel) n out =
    let longer = digits_from fuel (n / 10) ((b'0' + n % 10) ∷ out) in
    if ltb n 10 then (b'0' + n) ∷ out else longer

unfoldable pub decimal : ℕ → Text
unfolding digits_from
decimal n = digits_from (suc n) n []

-- `ts.join(sep)`
unfoldable pub join_with : Text → List Text → Text
join_with sep [] = []
join_with sep (t ∷ []) = t
join_with sep (t ∷ u ∷ ts) = t ++ sep ++ join_with sep (u ∷ ts)

-- `s.startsWith(t)`
unfoldable pub starts_with : Text → Text → Bool
starts_with s [] = true
starts_with [] (b ∷ t) = false
starts_with (a ∷ s) (b ∷ t) = a == b && starts_with s t

-- `s.includes(t)`
unfoldable pub includes : Text → Text → Bool
unfolding starts_with
includes [] t = starts_with [] t
includes (a ∷ s) t = starts_with (a ∷ s) t || includes s t

-- the longest run of characters in front that satisfy the test, and what is behind it
unfoldable pub run_of : (ℕ → Bool) → Text → Text × Text
run_of p [] = ([], [])
run_of p (c ∷ s) = let (run, rest) = run_of p s in if p c then (c ∷ run, rest) else ([], c ∷ s)

-- `s.indexOf(t)`; `none` is -1
unfoldable pub index_of_text : Text → Text → Option ℕ
unfolding starts_with
index_of_text t [] = if starts_with [] t then some 0 else none
index_of_text t (c ∷ s) =
    if starts_with (c ∷ s) t then some 0 else Option.map suc (index_of_text t s)
