-- ===== src/Base/Results.antt =====
-- What a call can do besides returning: `panic` is a failed `assert`, which prints its message and
-- never returns; `fault` is an access outside of the object that a pointer or an index names.
use mathlib.Core.Path.{◌≡◌, refl, ap}
use mathlib.Core.Logic.{◌⊎◌, inl, inr}

-- The messages of the kernel's asserts.
pub data Panic : Type 0 where
  out_of_memory no_unused_memory : Panic

pub data Result {ℓ} (A : Type ℓ) : Type ℓ where
  ok : A → Result A
  panic : Panic → Result A
  fault : Result A
  out_of_fuel : Result A

-- What comes after a call runs on its value, if it returns one.
infixl 5 ◌>>=◌
abbrev pub ◌>>=◌ {ℓ₁ ℓ₂} :
    {Value : Type ℓ₁} {Next : Type ℓ₂} → Result Value → (Value → Result Next) → Result Next
out_of_fuel >>= next = out_of_fuel
fault >>= next = fault
panic message >>= next = panic message
ok value >>= next = next value

-- A step after which nothing changes.
pub bind-same {ℓ} :
    {A : Type ℓ} (m : Result A) (f : A → Result A) → ((a : A) → f a ≡ ok a) → (m >>= f) ≡ m
bind-same (ok a) f h = h a
bind-same (panic p) f h = refl
bind-same fault f h = refl
bind-same out_of_fuel f h = refl

-- A chain returns only if its first call returns a value from which the second one returns.
pub bind-eq-ok {ℓ₁ ℓ₂} :
    {Value : Type ℓ₁} {Next : Type ℓ₂} (first : Result Value) (second : Value → Result Next)
    {result : Next}
    → (first >>= second) ≡ ok result
    → (value : Value) × (first ≡ ok value) × (second value ≡ ok result)
bind-eq-ok out_of_fuel second returned = cc
bind-eq-ok fault second returned = cc
bind-eq-ok (panic message) second returned = cc
bind-eq-ok (ok value) second returned = (value, refl, returned)

-- A chain panics only if its first call does, or what comes after its value.
pub bind-eq-panic {ℓ₁ ℓ₂} :
    {Value : Type ℓ₁} {Next : Type ℓ₂} (first : Result Value) (second : Value → Result Next)
    {message : Panic}
    → (first >>= second) ≡ panic message
    → (first ≡ panic message)
      ⊎ ((value : Value) × (first ≡ ok value) × (second value ≡ panic message))
bind-eq-panic out_of_fuel second failed = cc
bind-eq-panic fault second failed = cc
bind-eq-panic (panic raised) second {message} failed =
    let same : raised ≡ message = cc in inl (ap panic same)
bind-eq-panic (ok value) second failed = inr (value, refl, failed)
