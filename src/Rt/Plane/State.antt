-- ===== src/Rt/Plane/State.antt =====
-- The object's state, and a method of it: what it returns or raises, and the state that it leaves.
use sched_pass.Prelude.{◌≡◌, ap, ℕ, Option, List, inl, inr}
use sched_pass.Prelude.Result.{Result, ok, err, Result-cases}
use sched_pass.Rt.Memory.{Bytes}

-- A device tensor: its address and its entries.
pub record DeviceTensor : Type 0 where
  pub ptr : ℕ
  pub items : List ℕ

pub record SchedPlane : Type 0 where
  -- `self.N`
  pub size : ℕ
  pub arena : Bytes
  pub ctrl_host : Bytes
  pub generation : ℕ
  pub timer_dev : Option DeviceTensor
  pub order_dev : Option DeviceTensor

abbrev pub Action {ℓ} : Type ℓ → Type ℓ
Action A = SchedPlane → Result A × SchedPlane

infixl 5 ◌>>=◌ ◌>>◌
abbrev pub ◌>>=◌ {ℓ κ} : {A : Type ℓ} {B : Type κ} → Action A → (A → Action B) → Action B
◌>>=◌ m f p = let (r, p') = m p in elim r [ ok a ↦ f a p' | err e ↦ (err e, p') ]

abbrev pub ◌>>◌ {ℓ κ} : {A : Type ℓ} {B : Type κ} → Action A → Action B → Action B
m >> k = m >>= λ _. k

-- A computed result, as a step that leaves the state alone.
abbrev pub raise_or {ℓ} : {A : Type ℓ} → Result A → Action A
raise_or r p = (r, p)

-- Where the first of two methods returns, the second runs on what it leaves.
pub then_ok {ℓ κ} :
    {A : Type ℓ} {B : Type κ} (m : Action A) (k : Action B) (p : SchedPlane) {a : A}
    {q : SchedPlane}
    → m p ≡ (ok a, q)
    → (m >> k) p ≡ k q
then_ok {B = B} m k p e =
    ap (λ r. elim r.0 as (λ _. Result B × SchedPlane) [ ok _ ↦ k r.1 | err x ↦ (err x, r.1) ]) e

-- What each of two methods keeps, their sequence keeps, also where the first raises.
module _ {ℓ κ} {A : Type ℓ} {B : Type κ} (P : SchedPlane → Type 0) where
  pub bind_keeps :
      (m : Action A) (f : A → Action B) (p : SchedPlane)
      → P (m p).1
      → ((a : A) (q : SchedPlane) → P q → P (f a q).1)
      → P ((m >>= f) p).1
  bind_keeps m f p h k = elim (Result-cases (m p).0) [
    | inl (a, e) ↦ rw (e, ◌>>=◌) (k a (m p).1 h)
    | inr (x, e) ↦ rw (e, ◌>>=◌) h
  ]

  pub then_keeps :
      (m : Action A) (k : Action B) (p : SchedPlane)
      → P (m p).1
      → ((q : SchedPlane) → P q → P (k q).1)
      → P ((m >> k) p).1
  then_keeps m k p h g = bind_keeps m (λ _. k) p h (λ _. g)
