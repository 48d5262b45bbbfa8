-- ===== src/Prelude/Panic.antt =====
-- A Go call either returns or panics; an index out of range and a nil dereference panic.
use mathlib.Core.Option.{Option, none, some}
use mathlib.Core.Path.{◌≡◌, refl}
use mathlib.Core.Logic.{◌⊎◌, inl, inr}

pub data Outcome {ℓ} (A : Type ℓ) : Type ℓ where
  done : A → Outcome A
  panic : Outcome A

infixl 5 ◌>>=◌
abbrev pub ◌>>=◌ {ℓ κ} : {A : Type ℓ} {B : Type κ} → Outcome A → (A → Outcome B) → Outcome B
done a >>= f = f a
panic >>= f = panic

-- `xs[i]`: what a lookup out of range gives is a panic.
abbrev pub or_panic {ℓ} : {A : Type ℓ} → Option A → Outcome A
or_panic none = panic
or_panic (some a) = done a

-- What a call that returns ensures of its value.
abbrev pub Ensures {ℓ κ} : {A : Type ℓ} → (A → Type κ) → Outcome A → Type κ
Ensures P (done a) = P a
Ensures P panic = Unit

pub Ensures-bind {ℓ κ μ} :
    {A : Type ℓ} {B : Type κ} (P : B → Type μ) (m : Outcome A) (f : A → Outcome B)
    → ((a : A) → m ≡ done a → Ensures P (f a))
    → Ensures P (m >>= f)
Ensures-bind P (done a) f h = h a refl
Ensures-bind P panic f h = tt

pub Outcome-cases {ℓ} : {A : Type ℓ} (m : Outcome A) → ((a : A) × (m ≡ done a)) ⊎ (m ≡ panic)
Outcome-cases (done a) = inl (a, refl)
Outcome-cases panic = inr refl

pub of_done {ℓ} : {A : Type ℓ} (a b : A) → done a ≡ done b → a ≡ b
of_done a b h = cc
