-- ===== src/Scanner/Markers.antt =====
-- The text behind a list marker or quote mark is the end of its line, and stands where it is sought.
use varar.Base.{
  ℕ, zero, suc, ◌+◌, ◌-◌, Bool, true, not, ◌&&◌, ◌||◌, [], ◌∷◌, ◌++◌, append_assoc, none, some, ◌≡◌,
  ◌≢◌, refl, ap, sym, ◌∙◌, arith, length, Bool-cases, Option-cases, inl, inr, ◌==◌, get_elem?, take,
  drop, get_elem?-drop, drop-nil, subst,
}
use varar.Text.{Text, is_space, run_of, starts_with, index_of_text, slice}
use varar.Scanner.{RawLine}
use varar.Scanner.Patterns.{
  ListMarker, is_bullet, is_digit, behind_space, list_text, bullet_at, bullet, number_at, numbered,
  quoted_at, is_quoted, quoted,
}
use varar.Scanner.Blocks.{text_start}

-- the text ends in the other one
abbrev pub EndsIn : Text → Text → Type 0
EndsIn s t = (pre : Text) × (s ≡ pre ++ t)

run_of-append : (p : ℕ → Bool) (s : Text) → (run_of p s).0 ++ (run_of p s).1 ≡ s
unfolding run_of
run_of-append p [] = refl
run_of-append p (c ∷ s) = elim (Bool-cases (p c)) [
  | inl e ↦ rw e (ap (λ t. c ∷ t) (run_of-append p s))
  | inr e ↦ rw e refl
]

EndsIn-append : (a s t : Text) → EndsIn s t → EndsIn (a ++ s) t
EndsIn-append a s t (pre, e) = (a ++ pre, ap (λ r. a ++ r) e ∙ sym (append_assoc a pre t))

-- the rest behind a run of characters
EndsIn-run_of : (p : ℕ → Bool) (s t : Text) → EndsIn (run_of p s).1 t → EndsIn s t
EndsIn-run_of p s t (pre, e) = (
  (run_of p s).0 ++ pre,
  sym (run_of-append p s)
      ∙ ap (λ r. (run_of p s).0 ++ r) e
      ∙ sym (append_assoc (run_of p s).0 pre t),
)

behind_space-EndsIn : (s t : Text) → behind_space s ≡ some t → EndsIn s t
unfolding behind_space
behind_space-EndsIn s t e = elim (Bool-cases (length (run_of is_space s).0 == 0)) [
  | inl b ↦ absurd (ground arith)
  | inr b ↦ EndsIn-run_of is_space s t ([], (ground arith))
]

list_text-EndsIn :
    (indent width : ℕ) (s : Text) (m : ListMarker)
    → list_text indent width s ≡ some m
    → EndsIn s m.text
unfolding list_text
list_text-EndsIn indent width s m e = elim (Option-cases (behind_space s)) [
  | inl q ↦ absurd (ground arith)
  | inr (t, q) ↦ behind_space-EndsIn s m.text (q ∙ ground arith)
]

bullet_at-EndsIn :
    (indent : ℕ) (s : Text) (m : ListMarker) → bullet_at indent s ≡ some m → EndsIn s m.text
unfolding bullet_at
bullet_at-EndsIn indent [] m e = absurd (cc)
bullet_at-EndsIn indent (c ∷ s) m e = elim (Bool-cases (is_bullet c)) [
  | inl b ↦ EndsIn-append (c ∷ []) s m.text (list_text-EndsIn indent 1 s m (ground arith))
  | inr b ↦ absurd (ground arith)
]

pub bullet-EndsIn : (s : Text) (m : ListMarker) → bullet s ≡ some m → EndsIn s m.text
unfolding bullet
bullet-EndsIn s m e =
    EndsIn-run_of is_space s m.text
      (bullet_at-EndsIn (length (run_of is_space s).0) (run_of is_space s).1 m e)

number_at-EndsIn :
    (indent digits : ℕ) (s : Text) (m : ListMarker)
    → number_at indent digits s ≡ some m
    → EndsIn s m.text
unfolding number_at
number_at-EndsIn indent digits [] m e = absurd (cc)
number_at-EndsIn indent digits (c ∷ s) m e =
    elim (Bool-cases (not (digits == 0) && (c == b'.' || c == b')'))) [
      | inl b ↦
          EndsIn-append (c ∷ []) s m.text
            (list_text-EndsIn indent (suc digits) s m (sym (rw b refl) ∙ e))
      | inr b ↦ absurd (ground arith)
    ]

pub numbered-EndsIn : (s : Text) (m : ListMarker) → numbered s ≡ some m → EndsIn s m.text
unfolding numbered
numbered-EndsIn s m e =
    let rest = (run_of is_space s).1 in
    EndsIn-run_of is_space s m.text (
      EndsIn-run_of is_digit rest m.text (
        number_at-EndsIn (length (run_of is_space s).0) (length (run_of is_digit rest).0)
          (run_of is_digit rest).1 m e))

is_quoted-EndsIn : (s t : Text) → is_quoted s ≡ some t → s ≡ t
is_quoted-EndsIn s t e = ground arith

quoted_at-EndsIn : (s t : Text) → quoted_at s ≡ some t → EndsIn s t
quoted_at-EndsIn [] t e = ([], ground arith)
quoted_at-EndsIn (c ∷ s) t e = elim (Bool-cases (is_space c)) [
  | inl b ↦ (c ∷ [], ap (λ r. c ∷ r) (is_quoted-EndsIn s t (ground arith)))
  | inr b ↦ ([], is_quoted-EndsIn (c ∷ s) t (ground arith))
]

pub quoted-EndsIn : (s t : Text) → quoted s ≡ some t → EndsIn s t
unfolding quoted
quoted-EndsIn [] t e = absurd (cc)
quoted-EndsIn (c ∷ s) t e = elim (Bool-cases (c == b'>')) [
  | inl b ↦ EndsIn-append (c ∷ []) s t (quoted_at-EndsIn s t (ground arith))
  | inr b ↦ absurd (ground arith)
]

starts_with_self : (t : Text) → starts_with t t ≡ true
unfolding starts_with
starts_with_self [] = refl
starts_with_self (c ∷ t) = ground (arith, starts_with_self t)

-- the end of a text is found in it
index_of_text-end : (pre t : Text) → index_of_text t (pre ++ t) ≢ none
unfolding index_of_text
index_of_text-end [] [] e = unfold starts_with in cc
index_of_text-end [] (c ∷ t) e =
    let h : starts_with (c ∷ t) (c ∷ t) ≡ true = starts_with_self (c ∷ t) in ground arith
index_of_text-end (c ∷ pre) t e = elim (Bool-cases (starts_with (c ∷ (pre ++ t)) t)) [
  | inl b ↦ ground arith
  | inr b ↦ elim (Option-cases (index_of_text t (pre ++ t))) [
    | inl q ↦ index_of_text-end pre t q
    | inr (i, q) ↦ ground arith
  ]
]

-- what stands in front stands there
starts_with-get_elem? :
    (s t : Text) (k c : ℕ)
    → starts_with s t ≡ true
    → get_elem? t k ≡ some c
    → get_elem? s k ≡ some c
unfolding starts_with
starts_with-get_elem? s [] k c h e = absurd (cc)
starts_with-get_elem? [] (b ∷ t) k c h e = absurd (ground arith)
starts_with-get_elem? (a ∷ s) (b ∷ t) zero c h e = ground arith
starts_with-get_elem? (a ∷ s) (b ∷ t) (suc k) c h e = starts_with-get_elem? s t k c (ground arith) e

index_of_text-drop :
    (t s : Text) (i : ℕ) → index_of_text t s ≡ some i → starts_with (drop i s) t ≡ true
unfolding index_of_text
index_of_text-drop t [] i e = elim (Bool-cases (starts_with [] t)) [
  | inl b ↦ rw drop-nil b
  | inr b ↦ absurd (ground arith)
]
index_of_text-drop t (d ∷ s) i e = elim (Bool-cases (starts_with (d ∷ s) t)) [
  | inl b ↦
      let z : i ≡ 0 = ground arith in subst (λ j. starts_with (drop j (d ∷ s)) t ≡ true) (sym z) b
  | inr b ↦ elim (Option-cases (index_of_text t s)) [
    | inl q ↦ absurd (ground arith)
    | inr (j, q) ↦
        let z : i ≡ suc j = ground arith in
        subst (λ n. starts_with (drop n (d ∷ s)) t ≡ true) (sym z) (index_of_text-drop t s j q)
  ]
]

-- The line's text is what the source has there.
abbrev pub StandsIn : Text → RawLine → Type 0
StandsIn source line = slice source line.start_offset line.end_offset ≡ line.text

get_elem?-take-some :
    (n k c : ℕ) (s : Text) → get_elem? (take n s) k ≡ some c → get_elem? s k ≡ some c
get_elem?-take-some zero k c s e = absurd (cc)
get_elem?-take-some (suc n) k c [] e = e
get_elem?-take-some (suc n) zero c (x ∷ s) e = e
get_elem?-take-some (suc n) (suc k) c (x ∷ s) e = get_elem?-take-some n k c s e

pub get_elem?-slice :
    (s : Text) (a b k c : ℕ) → get_elem? (slice s a b) k ≡ some c → get_elem? s (a + k) ≡ some c
get_elem?-slice s a b k c e =
    sym (get_elem?-drop a k s) ∙ get_elem?-take-some (b - a) k c (drop a s) e

-- Every character of the text stands in the source behind the offset that `indexOf` finds for it.
pub text_start-get_elem? :
    (source : Text) (line : RawLine) (t : Text) (k c : ℕ)
    → EndsIn line.text t
    → StandsIn source line
    → get_elem? t k ≡ some c
    → get_elem? source (text_start line t + k) ≡ some c
unfolding text_start
text_start-get_elem? source line t k c (pre, e) h g =
    elim (Option-cases (index_of_text t line.text)) [
      | inl q ↦ absurd (index_of_text-end pre t (sym (ap (index_of_text t) e) ∙ q))
      | inr (i, q) ↦
          let there : get_elem? line.text (i + k) ≡ some c =
            sym (get_elem?-drop i k line.text)
            ∙ starts_with-get_elem? (drop i line.text) t k c (index_of_text-drop t line.text i q)
                g in
          let sum : line.start_offset + i + k ≡ line.start_offset + (i + k) = omega arith in
          rw (text_start, q, sum)
            (get_elem?-slice source line.start_offset line.end_offset (i + k) c
              (ap (λ s. get_elem? s (i + k)) h ∙ there))
    ]
