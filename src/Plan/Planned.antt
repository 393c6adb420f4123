-- ===== src/Plan/Planned.antt =====
-- What planning gives: a value and the diagnostics that it has pushed, in order; the error
-- `empty segmentMap`; or the error that an author's `parse` threw. The recursion over references and
-- the search for steps have fuel, and may exhaust it.
use varar.Base.{List, [], ◌∷◌, ◌++◌, Option, none, some}
use varar.Diagnostics.{Diagnostic}
use varar.Matcher.Searched.{Searched, searched, threw, out_of_fuel}

pub data Planned {ℓ} (A : Type ℓ) : Type ℓ where
  planned : A → List Diagnostic → Planned A
  empty_segment_map : Planned A
  parse_threw : Planned A
  exhausted : Planned A

abbrev pub emit {ℓ} : {A : Type ℓ} → List Diagnostic → Planned A → Planned A
emit ds (planned a es) = planned a (ds ++ es)
emit ds empty_segment_map = empty_segment_map
emit ds parse_threw = parse_threw
emit ds exhausted = exhausted

infixl 5 ◌>>=◌ ◌>>◌
abbrev pub ◌>>=◌ {ℓ κ} : {A : Type ℓ} {B : Type κ} → Planned A → (A → Planned B) → Planned B
planned a ds >>= f = emit ds (f a)
empty_segment_map >>= f = empty_segment_map
parse_threw >>= f = parse_threw
exhausted >>= f = exhausted

abbrev pub ◌>>◌ {ℓ} : {B : Type ℓ} → Planned (Unit {0}) → Planned B → Planned B
m >> k = m >>= λ _. k

abbrev pub pure {ℓ} : {A : Type ℓ} → A → Planned A
pure a = planned a []

abbrev pub report : Diagnostic → Planned (Unit {0})
report d = planned tt (d ∷ [])

abbrev pub lifted {ℓ} : {A : Type ℓ} → Option A → Planned A
lifted none = empty_segment_map
lifted (some a) = pure a

abbrev pub from_search {ℓ} : {A : Type ℓ} → Searched A → Planned A
from_search (searched a) = pure a
from_search threw = parse_threw
from_search out_of_fuel = exhausted

-- `map` with a function that may fail or report
unfoldable pub each {ℓ κ} : {A : Type ℓ} {B : Type κ} → (A → Planned B) → List A → Planned (List B)
each f [] = pure []
each f (a ∷ as') = do b ← f a; bs ← each f as'; pure (b ∷ bs)
