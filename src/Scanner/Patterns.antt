-- ===== src/Scanner/Patterns.antt =====
-- The regular expressions of scanner.ts, as functions on a line. Where one class of characters ends,
-- the next character is of another class, so no match is found by giving characters back.
use varar.Base.{
  ℕ, suc, ◌-◌, Bool, true, false, not, ◌&&◌, ◌||◌, [], ◌∷◌, Option, none, some, leb, ◌==◌,
  if◌then◌else◌, all, length, take, get_elem?,
}
use varar.Text.{Text, is_space, run_of, trim, trim_end, leading, trim_start, trimmed_length}

-- `.` matches every other character.
abbrev ends_line : ℕ → Bool
ends_line c = c == 0x0a || c == 0x0d || c == 0x2028 || c == 0x2029

-- /^(.*)$/ on what is left
abbrev pub is_plain : Text → Bool
is_plain s = all (λ c. not (ends_line c)) s

-- /^\s*$/ on what is left
unfoldable pub is_blank : Text → Bool
unfolding is_space
is_blank [] = true
is_blank (c ∷ s) = is_space c && is_blank s

-- the number of further characters `c` in a text that has no others but white space
marks_of : ℕ → Text → Option ℕ
unfolding is_space
marks_of c [] = some 0
marks_of c (d ∷ s) = elim (marks_of c s) [
  | none ↦ none
  | some n ↦ if d == c then some (suc n) else if is_space d then some n else none
]

abbrev at_least_two : Option ℕ → Bool
at_least_two none = false
at_least_two (some n) = leb 2 n

abbrev is_rule_mark : ℕ → Bool
is_rule_mark c = c == b'-' || c == b'*' || c == b'_'

abbrev is_rule : Text → Bool
unfolding marks_of
is_rule [] = false
is_rule (c ∷ s) = is_rule_mark c && at_least_two (marks_of c s)

-- `THEMATIC_RE`
unfoldable pub is_thematic : Text → Bool
unfolding marks_of leading
is_thematic s = is_rule (trim_start s)

-- what is behind /\s+/, if it matches in front
unfoldable pub behind_space : Text → Option Text
unfolding run_of is_space
behind_space s = let (gap, rest) = run_of is_space s in if length gap == 0 then none else some rest

-- A list marker: the length of the white space in front, the length of the marker, and the text.
pub record ListMarker : Type 0 where
  pub indent : ℕ
  pub width : ℕ
  pub text : Text

-- behind the marker: /\s+(.*)$/
unfoldable pub list_text : (indent width : ℕ) → Text → Option ListMarker
unfolding behind_space
list_text indent width s = elim (behind_space s) [
  | none ↦ none
  | some text ↦
      if is_plain text then some (record { indent = indent; width = width; text = text }) else none
]

abbrev pub is_bullet : ℕ → Bool
is_bullet c = c == b'-' || c == b'*' || c == b'+'

unfoldable pub bullet_at : (indent : ℕ) → Text → Option ListMarker
unfolding list_text
bullet_at indent [] = none
bullet_at indent (c ∷ s) = if is_bullet c then list_text indent 1 s else none

-- `UL_RE`
unfoldable pub bullet : Text → Option ListMarker
unfolding run_of is_space bullet_at
bullet s = let (gap, rest) = run_of is_space s in bullet_at (length gap) rest

abbrev pub is_digit : ℕ → Bool
is_digit c = leb b'0' c && leb c b'9'

unfoldable pub number_at : (indent digits : ℕ) → Text → Option ListMarker
unfolding list_text
number_at indent digits [] = none
number_at indent digits (c ∷ s) =
    if not (digits == 0) && (c == b'.' || c == b')') then list_text indent (suc digits) s else none

-- `OL_RE`
unfoldable pub numbered : Text → Option ListMarker
unfolding run_of is_space number_at
numbered s =
    let (gap, rest) = run_of is_space s in
    let (digits, behind) = run_of is_digit rest in number_at (length gap) (length digits) behind

abbrev pub is_quoted : Text → Option Text
is_quoted s = if is_plain s then some s else none

abbrev pub quoted_at : Text → Option Text
quoted_at [] = some []
quoted_at (c ∷ s) = if is_space c then is_quoted s else is_quoted (c ∷ s)

-- `BQ_RE`: the text behind the mark
unfoldable pub quoted : Text → Option Text
unfolding is_space
quoted [] = none
quoted (c ∷ s) = if c == b'>' then quoted_at s else none

abbrev is_hash : ℕ → Bool
is_hash c = c == b'#'

-- /^#{1,6}\s+/: the level, and what is behind
unfoldable pub heading_mark : Text → Option (ℕ × Text)
unfolding run_of behind_space
heading_mark s =
    let (hashes, rest) = run_of is_hash s in
    if leb 1 (length hashes) && leb (length hashes) 6
    then elim (behind_space rest) [ none ↦ none | some t ↦ some (length hashes, t) ]
    else none

-- /^\s+#+\s*$/ on what is left
closing_hashes : Text → Bool
unfolding behind_space run_of is_blank
closing_hashes s = elim (behind_space s) [
  | none ↦ false
  | some t ↦ let (hashes, rest) = run_of is_hash t in not (length hashes == 0) && is_blank rest
]

-- /^(.*?)(?:\s+#+)?\s*$/: the shortest text in front of closing hashes or white space
heading_title : Text → Option Text
unfolding is_blank closing_hashes
heading_title [] = some []
heading_title (c ∷ s) = elim (heading_title s) [
  | none ↦ if is_blank (c ∷ s) || closing_hashes (c ∷ s) then some [] else none
  | some t ↦
      if is_blank (c ∷ s) || closing_hashes (c ∷ s)
      then some []
      else if ends_line c
      then none
      else some (c ∷ t)
]

-- the level and text of a heading
unfoldable pub heading_of : Text → Option (ℕ × Text)
unfolding heading_mark heading_title
heading_of s = elim (heading_mark s) [
  | none ↦ none
  | some (level, rest) ↦ elim (heading_title rest) [ none ↦ none | some t ↦ some (level, trim t) ]
]

-- `FENCE_RE`: the length of the mark, and the info text
unfoldable pub fence_mark : Text → Option (ℕ × Text)
unfolding run_of is_space is_blank
fence_mark s =
    let (ticks, behind) = run_of (λ c. c == b'`') s in
    let (info, rest) = run_of (λ c. not (is_space c)) (run_of is_space behind).1 in
    if leb 3 (length ticks) && is_blank rest then some (length ticks, info) else none

-- a text that ends in a bar, with a plain text that is not empty in front
abbrev ends_row : Text → Bool
ends_row s = elim (get_elem? s (length s - 1)) [
  | none ↦ false
  | some c ↦ c == b'|' && leb 2 (length s) && is_plain (take (length s - 1) s)
]

-- `ROW_RE`
unfoldable pub is_row : Text → Bool
unfolding trimmed_length
is_row [] = false
is_row (c ∷ s) = c == b'|' && ends_row (trim_end s)

-- `DELIM_RE` as an automaton: behind a bar, with or without a cell in front; behind the colon that
-- opens a cell; in its dashes; and behind them
pub data Delim : Type 0 where
  behind_bar : Bool → Delim
  behind_colon : Delim
  in_dashes : Delim
  behind_dashes : Delim

abbrev next_delim : ℕ → Delim → Option Delim
next_delim c (behind_bar b) =
    if is_space c
    then some (behind_bar b)
    else if c == b':'
    then some behind_colon
    else if c == b'-'
    then some in_dashes
    else none
next_delim c behind_colon = if c == b'-' then some in_dashes else none
next_delim c in_dashes =
    if c == b'-'
    then some in_dashes
    else if c == b':' || is_space c
    then some behind_dashes
    else if c == b'|'
    then some (behind_bar true)
    else none
next_delim c behind_dashes =
    if is_space c then some behind_dashes else if c == b'|' then some (behind_bar true) else none

delim_from : Text → Option Delim → Bool
unfolding is_space
delim_from s none = false
delim_from [] (some (behind_bar b)) = b
delim_from [] (some behind_colon) = false
delim_from [] (some in_dashes) = false
delim_from [] (some behind_dashes) = false
delim_from (c ∷ s) (some d) = delim_from s (next_delim c d)

unfoldable pub is_delimiter_row : Text → Bool
unfolding delim_from
is_delimiter_row [] = false
is_delimiter_row (c ∷ s) = c == b'|' && delim_from s (some (behind_bar false))
