-- ===== src/Prelude/Result.antt =====
-- What a call returns, or the exception that it raises; with the state that it leaves, as an
-- action. The state comes back after a raise too, since what was written stays written.
use mathlib.Core.Path.{◌≡◌, refl}
use mathlib.Core.Logic.{◌⊎◌, inl, inr}
use mathlib.Core.Option.{Option, none, some}

pub data Exception : Type 0 where
  value_error struct_error overflow_error zero_division index_error runtime_error : Exception

pub data Result {ℓ} (A : Type ℓ) : Type ℓ where
  ok : A → Result A
  err : Exception → Result A

infixl 5 ◌>>=◌ ◌>>◌
abbrev pub ◌>>=◌ {ℓ κ} : {A : Type ℓ} {B : Type κ} → Result A → (A → Result B) → Result B
ok a >>= f = f a
err e >>= f = err e

abbrev pub ◌>>◌ {ℓ κ} : {A : Type ℓ} {B : Type κ} → Result A → Result B → Result B
m >> k = m >>= λ _. k

abbrev pub of_option {ℓ} : {A : Type ℓ} → Exception → Option A → Result A
of_option e none = err e
of_option e (some a) = ok a

pub Result-cases {ℓ} :
    {A : Type ℓ} (r : Result A) → ((a : A) × (r ≡ ok a)) ⊎ ((e : Exception) × (r ≡ err e))
Result-cases (ok a) = inl (a, refl)
Result-cases (err e) = inr (e, refl)

-- The call returns, and what it returns has the property.
abbrev pub Returns {ℓ} : {A : Type ℓ} → (A → Type 0) → Result A → Type 0
Returns P (ok a) = P a
Returns P (err _) = ⊥

pub Returns-ok {ℓ} :
    {A : Type ℓ} {P : A → Type 0} (r : Result A) → Returns P r → (a : A) × (r ≡ ok a) × P a
Returns-ok (ok a) h = (a, refl, h)
Returns-ok (err _) h = absurd h

pub ok_injective {ℓ} : {A : Type ℓ} {a b : A} → ok a ≡ ok b → a ≡ b
ok_injective e = cc
