-- ===== src/Results/Lines.antt =====
-- The range of a line.
use varar.Base.{
  ℕ, zero, suc, ◌+◌, ◌-◌, ◌<◌, true, false, List, [], ◌∷◌, ◌++◌, Option, none, some, ◌≡◌, ◌≢◌, refl,
  ap, sym, subst, ◌∙◌, arith, length, length-drop, get_elem?, take, drop, Bool-cases, Option-cases,
  inl, inr, if◌then◌else◌, ltb, ◌==◌,
}
use mathlib.Core.Option
use varar.Text.{Text, newline, slice, index_of, split_on, split_cons}
use varar.Text.Laws.{split_on-ne-nil}
use varar.Results.{start_from, line_range}

-- at the line that is sought
start_from_here : (s : Text) (i line start : ℕ) → start_from s i line line start ≡ start
unfolding start_from
start_from_here [] i line start = refl
start_from_here (c ∷ s) i line start = ground arith

get_elem?-split_cons :
    (c k : ℕ) (ts : List Text)
    → ts ≢ []
    → get_elem? (split_cons c ts) (suc k) ≡ get_elem? ts (suc k)
unfolding split_cons
get_elem?-split_cons c k [] h = absurd (h refl)
get_elem?-split_cons c k (t ∷ ts) h = refl

-- one round
start_from_other :
    (c : ℕ) (s : Text) (i current line start : ℕ)
    → (c == newline) ≡ false
    → current < line
    → start_from (c ∷ s) i current line start ≡ start_from s (suc i) current line start
unfolding start_from
start_from_other c s i current line start n h =
    let e : ltb current line ≡ true = ground arith in rw (start_from, e, n) refl

start_from-newline :
    (c : ℕ) (s : Text) (i current line start : ℕ)
    → (c == newline) ≡ true
    → current < line
    → start_from (c ∷ s) i current line start ≡ start_from s (suc i) (suc current) line (suc i)
unfolding start_from
start_from-newline c s i current line start n h =
    let e : ltb current line ≡ true = ground arith in rw (start_from, e, n) refl

-- the lines behind the first one, by the first character
split_on-other :
    (c k : ℕ) (s : Text)
    → (c == newline) ≡ false
    → get_elem? (split_on newline (c ∷ s)) (suc k) ≡ get_elem? (split_on newline s) (suc k)
unfolding split_on
split_on-other c k s n =
    ap
      (λ b.
        get_elem? (if b then [] ∷ split_on newline s else split_cons c (split_on newline s))
          (suc k))
      n
    ∙ get_elem?-split_cons c k (split_on newline s) (split_on-ne-nil newline s)

split_on-newline :
    (c k : ℕ) (s : Text)
    → (c == newline) ≡ true
    → get_elem? (split_on newline (c ∷ s)) (suc k) ≡ get_elem? (split_on newline s) k
unfolding split_on
split_on-newline c k s n =
    ap
      (λ b.
        get_elem? (if b then [] ∷ split_on newline s else split_cons c (split_on newline s))
          (suc k))
      n

-- The loop has stopped at a place of the text, where the line stands.
abbrev StopsAt : Text → (i stop : ℕ) → Text → Type 0
StopsAt s i stop t =
    (a : Text) × (b : Text) × (s ≡ a ++ b)
    × (stop ≡ i + length a)
    × (get_elem? (split_on newline b) 0 ≡ some t)

StopsAt-behind :
    (c : ℕ) (s : Text) (i stop : ℕ) (t : Text) → StopsAt s (suc i) stop t → StopsAt (c ∷ s) i stop t
StopsAt-behind c s i stop t (a, b, p, q, g) = (c ∷ a, b, ap (λ r. c ∷ r) p, omega (arith, q), g)

start_from-StopsAt :
    (s : Text) (i current line start k : ℕ) (t : Text)
    → line ≡ suc (current + k)
    → get_elem? (split_on newline s) (suc k) ≡ some t
    → StopsAt s i (start_from s i current line start) t
start_from-StopsAt [] i current line start k t l e = absurd (unfold split_on in cc)
start_from-StopsAt (c ∷ s) i current line start zero t l e = elim (Bool-cases (c == newline)) [
  | inl n ↦
      let here : line ≡ suc current = omega arith in
      (
        c ∷ [],
        s,
        refl,
        start_from-newline c s i current line start n (omega arith)
            ∙ ap (λ x. start_from s (suc i) (suc current) x (suc i)) here
            ∙ start_from_here s (suc i) (suc current) (suc i)
            ∙ omega arith,
        sym (split_on-newline c 0 s n) ∙ e,
      )
  | inr n ↦
      subst (λ x. StopsAt (c ∷ s) i x t)
        (sym (start_from_other c s i current line start n (omega arith)))
        (StopsAt-behind c s i _ t (
          start_from-StopsAt s (suc i) current line start zero t l
            (sym (split_on-other c 0 s n) ∙ e)))
]
start_from-StopsAt (c ∷ s) i current line start (suc k) t l e = elim (Bool-cases (c == newline)) [
  | inl n ↦
      subst (λ x. StopsAt (c ∷ s) i x t)
        (sym (start_from-newline c s i current line start n (omega arith)))
        (StopsAt-behind c s i _ t (
          start_from-StopsAt s (suc i) (suc current) line (suc i) k t (omega arith)
            (sym (split_on-newline c (suc k) s n) ∙ e)))
  | inr n ↦
      subst (λ x. StopsAt (c ∷ s) i x t)
        (sym (start_from_other c s i current line start n (omega arith)))
        (StopsAt-behind c s i _ t (
          start_from-StopsAt s (suc i) current line start (suc k) t l
            (sym (split_on-other c (suc k) s n) ∙ e)))
]

drop-front : (a b : Text) → drop (length a) (a ++ b) ≡ b
drop-front [] b = refl
drop-front (c ∷ a) b = drop-front a b

-- The first line ends at the first newline, or with the text.
abbrev stop_in : Option ℕ → Text → ℕ
stop_in none b = length b
stop_in (some i) b = i

abbrev line_end : Text → ℕ
line_end b = stop_in (index_of newline b) b

stop_in-behind :
    (c : ℕ) (b : Text) (o : Option ℕ) → stop_in (Option.map suc o) (c ∷ b) ≡ suc (stop_in o b)
stop_in-behind c b none = refl
stop_in-behind c b (some i) = refl

line_end-other : (c : ℕ) (b : Text) → (c == newline) ≡ false → line_end (c ∷ b) ≡ suc (line_end b)
unfolding index_of
line_end-other c b n =
    ap (λ x. stop_in (if x then some 0 else Option.map suc (index_of newline b)) (c ∷ b)) n
    ∙ stop_in-behind c b (index_of newline b)

line_end-newline : (c : ℕ) (b : Text) → (c == newline) ≡ true → line_end (c ∷ b) ≡ 0
unfolding index_of
line_end-newline c b n =
    ap (λ x. stop_in (if x then some 0 else Option.map suc (index_of newline b)) (c ∷ b)) n

first-split_cons :
    (c : ℕ) (ts : List Text) (t : Text)
    → ts ≢ []
    → get_elem? (split_cons c ts) 0 ≡ some t
    → (u : Text) × (get_elem? ts 0 ≡ some u) × (c ∷ u ≡ t)
unfolding split_cons
first-split_cons c [] t h e = absurd (h refl)
first-split_cons c (u ∷ ts) t h e = (u, refl, ground arith)

take-line_end : (b t : Text) → get_elem? (split_on newline b) 0 ≡ some t → take (line_end b) b ≡ t
unfolding split_on index_of
take-line_end [] t e = ground arith
take-line_end (c ∷ b) t e = elim (Bool-cases (c == newline)) [
  | inl n ↦ ap (λ m. take m (c ∷ b)) (line_end-newline c b n) ∙ ground arith
  | inr n ↦
      let (u, g, p) = first-split_cons c (split_on newline b) t (split_on-ne-nil newline b) (
        sym (
          ap
            (λ x.
              get_elem? (if x then [] ∷ split_on newline b else split_cons c (split_on newline b))
                0)
            n)
        ∙ e) in
      ap (λ m. take m (c ∷ b)) (line_end-other c b n) ∙ ap (λ r. c ∷ r) (take-line_end b u g) ∙ p
]

-- where the line stands
line_range-StopsAt :
    (source : Text) (k : ℕ) (t : Text)
    → get_elem? (split_on newline source) k ≡ some t
    → StopsAt source 0 (start_from source 0 1 (suc k) 0) t
line_range-StopsAt source zero t e =
    ([], source, refl, start_from_here source 0 1 0 ∙ omega arith, e)
line_range-StopsAt source (suc k) t e =
    start_from-StopsAt source 0 1 (suc (suc k)) 0 k t (omega arith) e

-- The range of a line that the source has covers the text of that line, without the newline behind it.
pub line_range_exact :
    (source : Text) (k : ℕ) (t : Text)
    → get_elem? (split_on newline source) k ≡ some t
    → slice source (line_range source (suc k)).first (line_range source (suc k)).last ≡ t
unfolding line_range
line_range_exact source k t e =
    let (a, b, p, q, g) = line_range-StopsAt source k t e in
    let start = start_from source 0 1 (suc k) 0 in
    let at : start ≡ length a = q ∙ omega arith in
    let rest : drop start source ≡ b =
      ap (λ n. drop n source) at ∙ ap (drop (length a)) p ∙ drop-front a b in
    let size : (line_range source (suc k)).last - start ≡ line_end (drop start source) =
      elim (Option-cases (index_of newline (drop start source))) [
        | inl n ↦ rw (line_range, n) (sym (length-drop start source))
        | inr (i, n) ↦ rw (line_range, n) (omega arith)
      ] in
    ap (λ n. take n (drop start source)) size
    ∙ ap (λ r. take (line_end r) r) rest
    ∙ take-line_end b t g
