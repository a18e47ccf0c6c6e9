-- ===== src/Sweep/Checks.antt =====
-- When the parts of a validation find no error.
use Prim.Native.String.{String}
use sched_pass.Prelude.{
  ℕ, ◌<◌, ◌≡◌, ◌≢◌, refl, ◌↔◌, Bool, true, false, not, ◌||◌, ◌==◌, leb, List, [], ◌∷◌, ◌++◌,
  Bool-cases, inl, inr, arith, ==_iff,
}
use sched_pass.Sweep.{error_if}

pub not_leb : (m n : ℕ) → leb m n ≡ false → n < m
not_leb m n h = ground arith

pub differ_of : (m n : ℕ) → (m == n) ≡ false → m ≢ n
differ_of m n h = ground arith

pub of_differ : (m n : ℕ) → m ≢ n → (m == n) ≡ false
of_differ m n h = ground arith

pub of_lt : (m n : ℕ) → n < m → leb m n ≡ false
of_lt m n h = ground arith

pub nil-append_iff : {A : Type 0} (xs ys : List A) → (xs ++ ys ≡ []) ↔ ((xs ≡ []) × (ys ≡ []))
nil-append_iff [] ys = (λ h. (refl, h), λ h. h.1)
nil-append_iff (x ∷ xs) ys = (λ h. absurd cc, λ h. absurd cc)

pub error_if-nil : (test : Bool) (error : String) → (error_if test error ≡ []) ↔ (test ≡ false)
error_if-nil false error = (λ _. refl, λ _. refl)
error_if-nil true error = (λ h. absurd cc, λ h. absurd cc)

-- an error unless two numbers are equal
pub differ-nil : (m n : ℕ) (error : String) → (error_if (not (m == n)) error ≡ []) ↔ (m ≡ n)
differ-nil m n error = elim (Bool-cases (m == n)) [
  | inl e ↦ rw e (λ _. (==_iff m n).0 e, λ _. refl)
  | inr e ↦ rw e (λ h. absurd cc, λ same. let e' = (==_iff m n).1 same in absurd cc)
]

pub both_zero-nil :
    (m n : ℕ) (error : String)
    → (error_if (not (m == 0) || not (n == 0)) error ≡ []) ↔ ((m ≡ 0) × (n ≡ 0))
both_zero-nil m n error = elim (Bool-cases (m == 0)) [
  | inr e ↦ rw e (λ h. absurd cc, λ h. let e' = (==_iff m 0).1 h.0 in absurd cc)
  | inl e ↦
      rw e (λ h. ((==_iff m 0).0 e, (differ-nil n 0 error).0 h), λ h. (differ-nil n 0 error).1 h.1)
]

-- several parts that find no error, each exactly if its condition holds
infixl 20 ◌⊗◌
pub ◌⊗◌ :
    {xs ys : List String} {P Q : Type 0}
    → ((xs ≡ []) ↔ P)
    → ((ys ≡ []) ↔ Q)
    → (xs ++ ys ≡ []) ↔ (P × Q)
◌⊗◌ {xs} {ys} p q =
    let both = nil-append_iff xs ys in
    (λ h. let (a, b) = both.0 h in (p.0 a, q.0 b), λ h. both.1 (p.1 h.0, q.1 h.1))
