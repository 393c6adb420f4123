-- ===== src/Matcher/Searched.antt =====
-- What a search for steps gives: its result; or the error that an author's `parse` threw, called by
-- `getValue` (typescript/packages/core/src/matcher.ts); or no end within the fuel.
use varar.Base.{Option, none, some}

pub data Searched {ℓ} (A : Type ℓ) : Type ℓ where
  searched : A → Searched A
  threw : Searched A
  out_of_fuel : Searched A

infixl 5 ◌>>=◌
abbrev pub ◌>>=◌ {ℓ κ} : {A : Type ℓ} {B : Type κ} → Searched A → (A → Searched B) → Searched B
searched a >>= f = f a
threw >>= f = threw
out_of_fuel >>= f = out_of_fuel

-- a value that `getValue` may throw instead of returning
abbrev pub returned {ℓ} : {A : Type ℓ} → Option A → Searched A
returned none = threw
returned (some a) = searched a

-- The search ends with a result that has the property, or it throws where `Throws` holds.
abbrev pub Finds {ℓ} : {A : Type ℓ} → Type 0 → (A → Type 0) → Searched A → Type 0
Finds Throws P (searched a) = P a
Finds Throws P threw = Throws
Finds Throws P out_of_fuel = ⊥

pub >>=-Finds {ℓ κ} :
    {A : Type ℓ} {B : Type κ} (Throws : Type 0) (P : A → Type 0) (Q : B → Type 0) (m : Searched A)
    (f : A → Searched B)
    → Finds Throws P m
    → ((a : A) → P a → Finds Throws Q (f a))
    → Finds Throws Q (m >>= f)
>>=-Finds Throws P Q (searched a) f r h = h a r
>>=-Finds Throws P Q threw f r h = r
>>=-Finds Throws P Q out_of_fuel f r h = r
