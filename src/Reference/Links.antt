-- ===== src/Reference/Links.antt =====
-- Links to oath sections: `referenceOf` and the slugs of headings.
use varar.Base.{
  ℕ, zero, suc, Bool, false, not, ◌&&◌, ◌||◌, [], ◌∷◌, ◌++◌, map, Option, none, some, leb, ◌==◌,
  if◌then◌else◌, length, take, drop,
}
use varar.Text.{Text, is_space, trim, text_eq, index_of, last_index_of, starts_with, codes, run_of}
use varar.Unicode.{Unicode}
use varar.Reference.{slash, join_posix}

pub record Reference : Type 0 where
  pub path : Text
  pub slug : Text
  pub text : Text

-- /\s*\)$/
unfoldable pub closes : Text → Bool
unfolding run_of is_space text_eq
closes s = text_eq (run_of is_space s).1 (codes ")")

abbrev is_target : ℕ → Bool
is_target c = not (is_space c) && not (c == b')')

-- `LINK_ONLY.exec`: the link's text and target. Where one class of characters ends, the next character
-- is of another class, so no match is found by giving characters back.
unfoldable pub link_target : Text → Text → Option (Text × Text)
unfolding run_of closes is_space
link_target label s =
    let (target, rest) = run_of is_target (run_of is_space s).1 in
    if not (length target == 0) && closes rest then some (label, target) else none

unfoldable pub link_behind : Text × Text → Option (Text × Text)
unfolding link_target starts_with
link_behind (label, rest) =
    if starts_with rest (codes "](") then link_target label (drop 2 rest) else none

unfoldable pub link_only : Text → Option (Text × Text)
unfolding link_behind run_of
link_only [] = none
link_only (c ∷ s) = if c == b'[' then link_behind (run_of (λ d. not (d == b']')) s) else none

abbrev is_letter : ℕ → Bool
is_letter c = (leb b'a' c && leb c b'z') || (leb b'A' c && leb c b'Z')

abbrev is_scheme : ℕ → Bool
is_scheme c = is_letter c || (leb b'0' c && leb c b'9') || c == b'+' || c == b'.' || c == b'-'

-- /^[a-z][a-z0-9+.-]*:/i
unfoldable pub has_scheme : Text → Bool
unfolding run_of starts_with
has_scheme [] = false
has_scheme (c ∷ s) = is_letter c && starts_with (run_of is_scheme s).1 (codes ":")

unfoldable pub ends_with : Text → Text → Bool
unfolding text_eq
ends_with [] t = text_eq [] t
ends_with (c ∷ s) t = text_eq (c ∷ s) t || ends_with s t

-- `dirnamePosix`
unfoldable pub dirname_posix : Text → Text
unfolding last_index_of
dirname_posix path = elim (last_index_of slash path) [ none ↦ [] | some i ↦ take i path ]

-- `target.slice(0, hash)` and `target.slice(hash + 1)`
abbrev pub split_target : Text → Text × Text
split_target target = elim (index_of b'#' target) [
  | none ↦ (target, [])
  | some hash ↦ (take hash target, drop (suc hash) target)
]

-- `replace` of every pair of marks by what stands between: `c` is the character of the mark
unfoldable pub strip_marks : (fuel : ℕ) → (mark : Text) → (c : ℕ) → Text → Text
unfolding run_of starts_with
strip_marks zero mark c s = s
strip_marks (suc fuel) mark c [] = []
strip_marks (suc fuel) mark c (d ∷ s) =
    let (body, rest) = run_of (λ x. not (x == c)) (drop (length mark) (d ∷ s)) in
    let stripped = body ++ strip_marks fuel mark c (drop (length mark) rest) in
    let kept = d ∷ strip_marks fuel mark c s in
    if starts_with (d ∷ s) mark && starts_with rest mark then stripped else kept

module _ (unicode : Unicode) where
  abbrev hyphen_for : ℕ → ℕ
  hyphen_for c = if c == b' ' then b'-' else c

  unfoldable pub normalize_slug : Text → Text
  normalize_slug s = map hyphen_for (unicode.without_punctuation (unicode.to_lower (trim s)))

  abbrev strip_all : Text → ℕ → Text → Text
  strip_all mark c s = strip_marks (length s) mark c s

  unfoldable pub slugify : Text → Text
  unfolding normalize_slug strip_marks
  slugify heading_text = normalize_slug (
      strip_all (codes "_") b'_' (
        strip_all (codes "*") b'*'
          (strip_all (codes "**") b'*' (strip_all (codes "`") b'`' heading_text))))

  -- behind the match of `LINK_ONLY`
  unfoldable pub reference_to : Text → Text → Text → Option Reference
  unfolding normalize_slug ends_with has_scheme starts_with join_posix dirname_posix
  reference_to text target from_path =
      let (file_part, fragment) = split_target target in
      if starts_with target (codes "#")
      then some (record { path = from_path; slug = normalize_slug (drop 1 target); text = text })
      else if not (ends_with file_part (codes ".md")) || has_scheme file_part
      then none
      else if starts_with file_part (codes "/")
      then none
      else some (record {
        path = join_posix (dirname_posix from_path) file_part;
        slug = normalize_slug fragment;
        text = text;
      })

  unfoldable pub reference_of : Text → Text → Option Reference
  unfolding link_only reference_to
  reference_of text from_path = elim (link_only (trim text)) [
    | none ↦ none
    | some (label, target) ↦ reference_to label target from_path
  ]
