-- ===== src/Base/Checked.antt =====
-- Steps that can refuse their input, and that can fault: `fault` is a read outside of a buffer,
-- `refused` is the source's `return false`.

use mathlib.Core.Bool.{Bool, true, false}
use mathlib.Core.Option.{Option, none, some}

pub data Checked {ℓ} (A : Type ℓ) : Type ℓ where
  fault : Checked A
  refused : Checked A
  ok : A → Checked A

infixl 5 ◌>>=◌ ◌>>◌
abbrev pub ◌>>=◌ {ℓ κ} : {A : Type ℓ} {B : Type κ} → Checked A → (A → Checked B) → Checked B
fault >>= f = fault
refused >>= f = refused
ok a >>= f = f a

abbrev pub ◌>>◌ {ℓ} : {B : Type ℓ} → Checked (Unit {0}) → Checked B → Checked B
m >> k = m >>= λ _. k

-- A test that the source returns `false` on.
abbrev pub require : Bool → Checked (Unit {0})
require true = ok tt
require false = refused

abbrev pub access {ℓ} : {A : Type ℓ} → Option A → Checked A
access none = fault
access (some a) = ok a

-- No fault, and what is accepted satisfies `P`.
abbrev pub Accepts {ℓ} : {A : Type ℓ} → (A → Type 0) → Checked A → Type 0
Accepts P fault = ⊥
Accepts P refused = Unit {0}
Accepts P (ok a) = P a

pub Accepts-bind {ℓ κ} :
    {A : Type ℓ} {B : Type κ} (P : A → Type 0) (Q : B → Type 0) (m : Checked A) (f : A → Checked B)
    → Accepts P m
    → ((a : A) → P a → Accepts Q (f a))
    → Accepts Q (m >>= f)
Accepts-bind P Q fault f h k = absurd h
Accepts-bind P Q refused f h k = tt
Accepts-bind P Q (ok a) f h k = k a h

pub Accepts-mono {ℓ} :
    {A : Type ℓ} {P Q : A → Type 0} (m : Checked A)
    → Accepts P m
    → ((a : A) → P a → Q a)
    → Accepts Q m
Accepts-mono fault h k = h
Accepts-mono refused h k = tt
Accepts-mono (ok a) h k = k a h
