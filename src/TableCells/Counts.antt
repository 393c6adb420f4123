-- ===== src/TableCells/Counts.antt =====
-- How many cells a row has.
use varar.Base.{
  ℕ, zero, suc, ◌+◌, ◌-◌, ◌≤◌, ◌<◌, true, false, List, [], ◌∷◌, none, some, ◌==◌, leb,
  if◌then◌else◌, length, take, drop, ◌≡◌, refl, ap, ◌∙◌, arith, Bool-cases, Option-cases, inl, inr,
}
use varar.Text.{last_index_of, Text, slice, split_on, split_cons, index_of}
use varar.TableCells.{pipe, cells_from, cells_between, parse_row_cells}

-- how often the character stands in the text
unfoldable pub count : ℕ → Text → ℕ
count c [] = 0
count c (d ∷ s) = let rest = count c s in if d == c then suc rest else rest

length-split_cons : (d : ℕ) (ts : List Text) → 0 < length ts → length (split_cons d ts) ≡ length ts
unfolding split_cons
length-split_cons d [] h = omega arith
length-split_cons d (t ∷ ts) h = refl

length-split_on : (c : ℕ) (s : Text) → length (split_on c s) ≡ suc (count c s)
unfolding split_on count
length-split_on c [] = refl
length-split_on c (d ∷ s) = ground (arith, length-split_on c s, length-split_cons d (split_on c s))

length-cells_from :
    (source : Text) (at : ℕ) (segs : List Text) → length (cells_from source at segs) ≡ length segs
unfolding cells_from
length-cells_from source at [] = refl
length-cells_from source at (seg ∷ segs) =
    ap suc (length-cells_from source (at + (length seg + 1)) segs)

index_of-eq-none : (c : ℕ) (s : Text) → index_of c s ≡ none → count c s ≡ 0
unfolding index_of count
index_of-eq-none c [] e = refl
index_of-eq-none c (d ∷ s) e = elim (Option-cases (index_of c s)) [
  | inl n ↦ ground (arith, index_of-eq-none c s n)
  | inr (i, q) ↦ ground arith
]

last_index_of-eq-none : (c : ℕ) (s : Text) → last_index_of c s ≡ none → count c s ≡ 0
unfolding last_index_of count
last_index_of-eq-none c [] e = refl
last_index_of-eq-none c (d ∷ s) e = elim (Option-cases (last_index_of c s)) [
  | inl n ↦ ground (arith, last_index_of-eq-none c s n)
  | inr (i, q) ↦ ground arith
]

-- one character stands up to the first place of it
count-drop :
    (c : ℕ) (s : Text) (i : ℕ) → index_of c s ≡ some i → count c s ≡ suc (count c (drop (suc i) s))
unfolding index_of count
count-drop c [] i e = cc
count-drop c (d ∷ s) i e = elim (Bool-cases (d == c)) [
  | inl b ↦ at_front i (ground arith) b
  | inr b ↦ elim (Option-cases (index_of c s)) [
    | inl n ↦ ground arith
    | inr (j, q) ↦ behind i j (ground arith) b (count-drop c s j q)
  ]
]
  where
    at_front :
        (i : ℕ) → i ≡ 0 → (d == c) ≡ true → count c (d ∷ s) ≡ suc (count c (drop (suc i) (d ∷ s)))
    at_front zero z b = ground arith
    at_front (suc i) z b = absurd (omega arith)

    behind :
        (i j : ℕ)
        → i ≡ suc j
        → (d == c) ≡ false
        → count c s ≡ suc (count c (drop (suc j) s))
        → count c (d ∷ s) ≡ suc (count c (drop (suc i) (d ∷ s)))
    behind zero j z b q = absurd (omega arith)
    behind (suc i) j z b q =
        let same : i ≡ j = omega arith in ground (arith, ap (λ k. count c (drop (suc k) s)) same)

-- one character stands from the last place of it on
count-take :
    (c : ℕ) (s : Text) (i : ℕ) → last_index_of c s ≡ some i → count c s ≡ suc (count c (take i s))
unfolding last_index_of count
count-take c [] i e = cc
count-take c (d ∷ s) i e = elim (Option-cases (last_index_of c s)) [
  | inl n ↦ front i (ground arith) (ground arith) n
  | inr (j, q) ↦ behind i j (ground arith) (count-take c s j q)
]
  where
    front :
        (i : ℕ)
        → i ≡ 0
        → (d == c) ≡ true
        → last_index_of c s ≡ none
        → count c (d ∷ s) ≡ suc (count c (take i (d ∷ s)))
    front zero z b n = ground (arith, last_index_of-eq-none c s n)
    front (suc i) z b n = absurd (omega arith)

    behind :
        (i j : ℕ)
        → i ≡ suc j
        → count c s ≡ suc (count c (take j s))
        → count c (d ∷ s) ≡ suc (count c (take i (d ∷ s)))
    behind zero j z q = absurd (omega arith)
    behind (suc i) j z q =
        let same : i ≡ j = omega arith in ground (arith, ap (λ k. count c (take k s)) same)

last_index_of-drop :
    (c : ℕ) (a : ℕ) (s : Text) (i : ℕ)
    → last_index_of c s ≡ some i
    → a ≤ i
    → last_index_of c (drop a s) ≡ some (i - a)
unfolding last_index_of
last_index_of-drop c zero s i e h = ground arith
last_index_of-drop c (suc a) [] i e h = cc
last_index_of-drop c (suc a) (d ∷ s) i e h = elim (Option-cases (last_index_of c s)) [
  | inl n ↦ absurd (ground arith)
  | inr (j, q) ↦
      let z : i ≡ suc j = ground arith in
      let step : j - a ≡ i - suc a = omega arith in
      last_index_of-drop c a s j q (omega arith) ∙ ap some step
]

count-between :
    (text : Text) (first last : ℕ)
    → index_of pipe text ≡ some first
    → last_index_of pipe text ≡ some last
    → first < last
    → count pipe text ≡ suc (suc (count pipe (slice text (first + 1) last)))
count-between text first last e q h =
    let same : first + 1 ≡ suc first = omega arith in
    let tail = last_index_of-drop pipe (suc first) text last q (omega arith) in
    let one = count-drop pipe text first e in
    let two = count-take pipe (drop (suc first) text) (last - suc first) tail in
    rw same (one ∙ ap suc two)

count-nothing : (c a : ℕ) (s : Text) → count c s ≡ 0 → count c (drop a s) ≡ 0
unfolding count
count-nothing c zero s h = h
count-nothing c (suc a) [] h = refl
count-nothing c (suc a) (d ∷ s) h = count-nothing c a s (ground arith)

-- nothing stands behind the last place
count-behind :
    (c a : ℕ) (s : Text) (i : ℕ) → last_index_of c s ≡ some i → i < a → count c (drop a s) ≡ 0
unfolding last_index_of
count-behind c zero s i e h = absurd (omega arith)
count-behind c (suc a) [] i e h = cc
count-behind c (suc a) (d ∷ s) i e h = elim (Option-cases (last_index_of c s)) [
  | inl n ↦ count-nothing c a s (last_index_of-eq-none c s n)
  | inr (j, q) ↦ let z : i ≡ suc j = ground arith in count-behind c a s j q (omega arith)
]

length-cells_between :
    (text : Text) (line_start : ℕ) (source : Text) (first last : ℕ)
    → index_of pipe text ≡ some first
    → last_index_of pipe text ≡ some last
    → length (cells_between text line_start source first last) ≡ count pipe text - 1
unfolding cells_between
length-cells_between text line_start source first last e q = elim (Bool-cases (leb last first)) [
  | inl b ↦
      let one = count-drop pipe text first e in
      let none_left = count-behind pipe (suc first) text last q (ground arith) in
      rw b (omega (arith, one, none_left))
  | inr b ↦
      let inner = slice text (first + 1) last in
      let two = count-between text first last e q (ground arith) in
      let cells = length-cells_from source (line_start + (first + 1)) (split_on pipe inner) in
      let segs = length-split_on pipe inner in rw b (omega (arith, two, cells, segs))
]

-- A row with at least two bars has one cell less than bars, and another row has no cells.
pub length-parse_row_cells :
    (text : Text) (line_start : ℕ) (source : Text)
    → length (parse_row_cells text line_start source) ≡ count pipe text - 1
unfolding parse_row_cells
length-parse_row_cells text line_start source = elim (Option-cases (index_of pipe text)) [
  | inl n ↦ let z = index_of-eq-none pipe text n in rw (parse_row_cells, n) (omega (arith, z))
  | inr (first, e) ↦ elim (Option-cases (last_index_of pipe text)) [
    | inl n ↦
        let z = last_index_of-eq-none pipe text n in rw (parse_row_cells, e, n) (omega (arith, z))
    | inr (last, q) ↦
        rw (parse_row_cells, e, q) (length-cells_between text line_start source first last e q)
  ]
]
