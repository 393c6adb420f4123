-- ===== src/Drift/Identity.antt =====
-- How drift.ts recognizes a recorded paragraph: the similarity of two sets of words.
use native.Mathlib.Nat.{mul_comm, mul-le-mul_left}
use varar.Base.{
  ℕ, ◌*◌, ◌≤◌, ◌<◌, true, false, ◌&&◌, ◌||◌, List, [], ◌∷◌, ◌++◌, Option, none, some, ◌==◌, ltb,
  ◌≡◌, ◌≢◌, ap, ◌∙◌, refl, arith, All, Bool-cases, inl, inr,
}
use varar.Text.{Text}
use varar.Text.Sets.{has, IsTokenSet, count_in-le, count_in_le_self, count_in-All, All-has}
use varar.Drift.{
  token_set, Score, similarity, is_below_threshold, distance, Entry, Best, line_of, improves,
  consider, best_of,
}

pub token_set-IsTokenSet : (words : List Text) → IsTokenSet (token_set words)
unfolding token_set
token_set-IsTokenSet [] = tt
token_set-IsTokenSet (t ∷ words) = elim (Bool-cases (has t (token_set words))) [
  | inl h ↦ rw h (token_set-IsTokenSet words)
  | inr h ↦ rw h (h, token_set-IsTokenSet words)
]

-- A similarity lies between 0 and 1.
abbrev pub IsBounded : Score → Type 0
IsBounded s = (s.num ≤ s.den) × (0 < s.den)

pub similarity-IsBounded : (a b : List Text) → IsTokenSet a → IsBounded (similarity a b)
unfolding similarity
similarity-IsBounded a b d =
    let p = count_in-le a b d in let q = count_in_le_self a b in ground (arith, p, q)

abbrev pub IsFull : Score → Type 0
IsFull s = (s.num ≡ s.den) × (0 < s.den)

-- A set of words is like itself.
pub similarity-IsFull : (a : List Text) → IsFull (similarity a a)
unfolding similarity
similarity-IsFull a = let p = count_in-All a a (All-has a a (λ t e. e)) in ground (arith, p)

-- The best candidate so far is another one, in another line.
abbrev Apart : ℕ → Option Best → Type 0
Apart line none = Unit
Apart line (some best) = IsBounded best.score × (line_of best.entry ≢ line)

scaled : (m e k l : ℕ) → m ≤ e → k ≡ l → m * l ≤ k * e
scaled m e k l h q = omega (arith, q, mul_comm l m, mul-le-mul_left l h, ap (λ x. x * e) q)

-- Nothing below 1 exceeds 1, and what equals it does not win when it is farther.
wins :
    (m e k l near far : ℕ)
    → m ≤ e
    → k ≡ l
    → near ≡ 0
    → 0 < far
    → (ltb (m * l) (k * e) || k * e == m * l && ltb near far) ≡ true
wins m e k l near far h q n f = let p = scaled m e k l h q in ground arith

loses :
    (m e k l near far : ℕ)
    → m ≤ e
    → k ≡ l
    → near ≡ 0
    → (ltb (k * e) (m * l) || m * l == k * e && ltb far near) ≡ false
loses m e k l near far h q n = let p = scaled m e k l h q in ground arith

distance_self : (a b : ℕ) → a ≡ b → distance a b ≡ 0
distance_self a b h = omega arith

distance_apart : (a b : ℕ) → a ≢ b → 0 < distance a b
distance_apart a b h = ground arith

module _ (tokens : List Text) (line : ℕ) (d : IsTokenSet tokens) where
  consider-Apart :
      (e : Entry) (best : Option Best)
      → line_of e ≢ line
      → Apart line best
      → Apart line (consider tokens line e best)
  unfolding consider
  consider-Apart e best n a = elim (Bool-cases (is_below_threshold (similarity tokens e.tokens))) [
    | inl b ↦ rw b a
    | inr b ↦ elim (Bool-cases (improves line e (similarity tokens e.tokens) best)) [
      | inl i ↦ rw (b, i) (similarity-IsBounded tokens e.tokens d, n)
      | inr i ↦ rw (b, i) a
    ]
  ]

  module _ (c : Entry) (same : c.tokens ≡ tokens) (here : line_of c ≡ line) where
    abbrev pub itself : Best
    itself = record { entry = c; score = similarity tokens c.tokens }

    full : IsFull (similarity tokens c.tokens)
    full = rw same (similarity-IsFull tokens)

    itself_improves :
        (best : Option Best)
        → Apart line best
        → improves line c (similarity tokens c.tokens) best ≡ true
    unfolding improves
    itself_improves none a = refl
    itself_improves (some best) ((le, pos), n) =
        wins best.score.num best.score.den _ _ _ _ le full.0 (distance_self (line_of c) line here)
          (distance_apart (line_of best.entry) line n)

    itself_stays :
        (e : Entry) (s : Score)
        → line_of e ≢ line
        → IsBounded s
        → improves line e s (some itself) ≡ false
    unfolding improves
    itself_stays e s n (le, pos) =
        loses s.num s.den _ _ _ _ le full.0 (distance_self (line_of c) line here)

    not_below : is_below_threshold (similarity tokens c.tokens) ≡ false
    not_below = let (q, p) = full in ground arith

    consider-itself :
        (best : Option Best) → Apart line best → consider tokens line c best ≡ some itself
    unfolding consider
    consider-itself best a = rw (not_below, itself_improves best a) refl

    consider_other :
        (e : Entry) → line_of e ≢ line → consider tokens line e (some itself) ≡ some itself
    unfolding consider
    consider_other e n = elim (Bool-cases (is_below_threshold (similarity tokens e.tokens))) [
      | inl b ↦ rw b refl
      | inr b ↦ rw (b, itself_stays e _ n (similarity-IsBounded tokens e.tokens d)) refl
    ]

    best_of_after :
        (post : List Entry)
        → All (λ e. line_of e ≢ line) post
        → best_of tokens line post (some itself) ≡ some itself
    unfolding best_of
    best_of_after [] a = refl
    best_of_after (e ∷ post) (n, a) =
        ap (best_of tokens line post) (consider_other e n) ∙ best_of_after post a

    -- Among candidates that stand in other lines, the paragraph itself is recognized.
    pub best_of-itself :
        (pre post : List Entry) (best : Option Best)
        → All (λ e. line_of e ≢ line) pre
        → All (λ e. line_of e ≢ line) post
        → Apart line best
        → best_of tokens line (pre ++ c ∷ post) best ≡ some itself
    unfolding best_of
    best_of-itself [] post best p a b =
        ap (best_of tokens line post) (consider-itself best b) ∙ best_of_after post a
    best_of-itself (e ∷ pre) post best (n, p) a b =
        best_of-itself pre post _ p a (consider-Apart e best n b)
