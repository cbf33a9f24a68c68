-- ===== src/Base/Options.antt =====
-- Fallible steps: `none` is a fault of the program, such as a read outside of a buffer.
use mathlib.Core.Path.{◌≡◌, refl}
use mathlib.Core.Logic.{◌⊎◌, inl, inr}
use mathlib.Core.Option.{Option, none, some}

infixl 5 ◌>>=◌
abbrev pub ◌>>=◌ {ℓ κ} : {A : Type ℓ} {B : Type κ} → Option A → (A → Option B) → Option B
none >>= f = none
some a >>= f = f a

-- The step makes no fault, and its result satisfies `P`.
abbrev pub Holds {ℓ} : {A : Type ℓ} → (A → Type 0) → Option A → Type 0
Holds P none = ⊥
Holds P (some a) = P a

pub Option-cases {ℓ} : {A : Type ℓ} (o : Option A) → (o ≡ none) ⊎ ((a : A) × (o ≡ some a))
Option-cases none = inl refl
Option-cases (some a) = inr (a, refl)

pub Holds-bind {ℓ κ} :
    {A : Type ℓ} {B : Type κ} (P : A → Type 0) (Q : B → Type 0) (m : Option A) (f : A → Option B)
    → Holds P m
    → ((a : A) → P a → Holds Q (f a))
    → Holds Q (m >>= f)
Holds-bind P Q none f h k = absurd h
Holds-bind P Q (some a) f h k = k a h

-- A step with no fault has a result.
pub Holds-some {ℓ} :
    {A : Type ℓ} (P : A → Type 0) (m : Option A) → Holds P m → (a : A) × (m ≡ some a) × P a
Holds-some P none h = absurd h
Holds-some P (some a) h = (a, refl, h)

pub Holds-of {ℓ} :
    {A : Type ℓ} (P : A → Type 0) {m : Option A} {a : A} → Holds P m → m ≡ some a → P a
Holds-of P h e = rw e at h
