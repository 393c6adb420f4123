-- ===== src/Plan/Returning.antt =====
-- Planning steps that return, with a property of what they return.
use varar.Base.{List, [], ◌∷◌, ◌≡◌, refl, All}
use varar.Diagnostics.{Diagnostic}
use varar.Plan.Planned.{
  Planned, planned, empty_segment_map, parse_threw, exhausted, emit, ◌>>=◌, each,
}

abbrev pub Returns {ℓ} : {A : Type ℓ} → (A → Type 0) → Planned A → Type 0
Returns P (planned a ds) = P a
Returns P empty_segment_map = ⊥
Returns P parse_threw = ⊥
Returns P exhausted = ⊥

-- whatever it returns
abbrev pub Ends {ℓ} : {A : Type ℓ} → Planned A → Type 0
Ends m = Returns (λ _. Unit) m

pub emit-Returns {ℓ} :
    {A : Type ℓ} (P : A → Type 0) (ds : List Diagnostic) (m : Planned A)
    → Returns P m
    → Returns P (emit ds m)
emit-Returns P ds (planned a es) r = r
emit-Returns P ds empty_segment_map r = r
emit-Returns P ds parse_threw r = r
emit-Returns P ds exhausted r = r

pub >>=-Returns {ℓ κ} :
    {A : Type ℓ} {B : Type κ} (P : A → Type 0) (Q : B → Type 0) (m : Planned A) (f : A → Planned B)
    → Returns P m
    → ((a : A) → P a → Returns Q (f a))
    → Returns Q (m >>= f)
>>=-Returns P Q (planned a ds) f r h = emit-Returns Q ds (f a) (h a r)
>>=-Returns P Q empty_segment_map f r h = absurd r
>>=-Returns P Q parse_threw f r h = absurd r
>>=-Returns P Q exhausted f r h = absurd r

pub Returns-map {ℓ} :
    {A : Type ℓ} (P Q : A → Type 0) (m : Planned A)
    → ((a : A) → P a → Q a)
    → Returns P m
    → Returns Q m
Returns-map P Q (planned a ds) h r = h a r
Returns-map P Q empty_segment_map h r = r
Returns-map P Q parse_threw h r = r
Returns-map P Q exhausted h r = r

pub each-Returns {ℓ κ} :
    {A : Type ℓ} {B : Type κ} (Q : B → Type 0) (f : A → Planned B) (as' : List A)
    → All (λ a. Returns Q (f a)) as'
    → Returns (All Q) (each f as')
unfolding each
each-Returns Q f [] h = tt
each-Returns Q f (a ∷ as') (p, h) =
    >>=-Returns Q (All Q) (f a) _ p (λ b q.
      >>=-Returns (All Q) (All Q) (each f as') _ (each-Returns Q f as' h) (λ bs qs. (q, qs)))

pub All-of {ℓ} : {A : Type ℓ} (P : A → Type 0) (as' : List A) → ((a : A) → P a) → All P as'
All-of P [] h = tt
All-of P (a ∷ as') h = (h a, All-of P as' h)

-- What has returned is a value with its diagnostics.
pub Returns-planned {ℓ} :
    {A : Type ℓ} (P : A → Type 0) (m : Planned A)
    → Returns P m
    → (a : A) × (ds : List Diagnostic) × (m ≡ planned a ds) × P a
Returns-planned P (planned a ds) r = (a, ds, refl, r)
Returns-planned P empty_segment_map r = absurd r
Returns-planned P parse_threw r = absurd r
Returns-planned P exhausted r = absurd r
