-- ===== src/Base/Slices.antt =====
-- Laws of `take`, `drop` and `get_elem?`.
use native.Mathlib.Nat.{zero-add, suc-add}
use varar.Base.Lists.{get_elem?, take, drop}
use Prim.Native.Nat.{ℕ, zero, suc, ◌+◌, ◌-◌, ◌<◌, ◌≤◌}
use mathlib.Core.Path.{◌≡◌, refl, ap}
use mathlib.Core.List.{List, [], ◌∷◌}
use native.Mathlib.Omega.{arith}

module _ {ℓ} {A : Type ℓ} where
  pub take-take : (a b : ℕ) (s : List A) → a ≤ b → take a (take b s) ≡ take a s
  take-take zero b s h = refl
  take-take (suc a) (suc b) [] h = refl
  take-take (suc a) (suc b) (x ∷ s) h = ap (◌∷◌ x) (take-take a b s (omega arith))
  take-take (suc a) zero s h = elim h [ ]

  pub drop-nil : (a : ℕ) → drop {A = A} a [] ≡ []
  drop-nil zero = refl
  drop-nil (suc a) = refl

  take-nil : (a : ℕ) → take {A = A} a [] ≡ []
  take-nil zero = refl
  take-nil (suc a) = refl

  pub drop-take : (a b : ℕ) (s : List A) → drop a (take b s) ≡ take (b - a) (drop a s)
  drop-take zero b s = let e : b - 0 ≡ b = omega arith in rw e
  drop-take (suc a) zero s = let e : 0 - suc a ≡ 0 = omega arith in rw e
  drop-take (suc a) (suc b) [] = rw take-nil
  drop-take (suc a) (suc b) (x ∷ s) =
      let e : suc b - suc a ≡ b - a = omega arith in rw e (drop-take a b s)

  pub drop-drop : (a b : ℕ) (s : List A) → drop a (drop b s) ≡ drop (b + a) s
  drop-drop a zero s = rw zero-add
  drop-drop a (suc b) [] = rw (suc-add, drop-nil)
  drop-drop a (suc b) (x ∷ s) = rw suc-add (drop-drop a b s)

  pub get_elem?-drop : (a k : ℕ) (s : List A) → get_elem? (drop a s) k ≡ get_elem? s (a + k)
  get_elem?-drop zero k s = rw zero-add
  get_elem?-drop (suc a) k [] = refl
  get_elem?-drop (suc a) k (x ∷ s) = rw suc-add (get_elem?-drop a k s)

  pub get_elem?-take : (n k : ℕ) (s : List A) → k < n → get_elem? (take n s) k ≡ get_elem? s k
  get_elem?-take zero k s h = elim h [ ]
  get_elem?-take (suc n) k [] h = refl
  get_elem?-take (suc n) zero (x ∷ s) h = refl
  get_elem?-take (suc n) (suc k) (x ∷ s) h = get_elem?-take n k s (omega arith)
