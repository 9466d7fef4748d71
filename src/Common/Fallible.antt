-- ===== src/Common/Fallible.antt =====
-- Memory faults as `none`: a computation that would read or write outside its object, follow a
-- null pointer or index a vector past its end has no result. `do` blocks of this module's bind.
use mathlib.Core.Path.{◌≡◌, refl, ap}
use mathlib.Core.Option.{Option, none, some}

infixl 5 ◌>>=◌
abbrev pub ◌>>=◌ {ℓ κ} : {A : Type ℓ} {B : Type κ} → Option A → (A → Option B) → Option B
none >>= f = none
some a >>= f = f a

-- A successful bind, taken apart.
pub >>=-eq-some {ℓ κ} :
    {A : Type ℓ} {B : Type κ} (m : Option A) (f : A → Option B) {b : B}
    → (m >>= f) ≡ some b
    → (a : A) × (m ≡ some a) × (f a ≡ some b)
>>=-eq-some none f h = cc
>>=-eq-some (some a) f h = (a, refl, h)

-- The other way round.
pub >>=-some {ℓ κ} :
    {A : Type ℓ} {B : Type κ} (m : Option A) (f : A → Option B) {a : A}
    → m ≡ some a
    → (m >>= f) ≡ f a
>>=-some m f e = ap (λ x. x >>= f) e
