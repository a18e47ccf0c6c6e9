-- ===== src/Moe/Rank.antt =====
-- The rank of a routed slot within its expert, by the arrival order.
use mathlib.Core.List.{Permᴰ}
use mathlib.Core.Logic.{∥∥₁_elim}
use native.Mathlib.Nat.{ℕ_set}
use sched_pass.Prelude.{
  ℕ, zero, suc, ◌+◌, ◌-◌, ◌<◌, ◌≡◌, refl, ap, ◌∙◌, inl, inr, Bool, ◌&&◌, ◌||◌, List, [], ◌∷◌,
  length, ltb, ◌==◌, get_or, take, range, range_from, arith, Perm, Bool-cases, if◌then◌else◌,
}

-- How many items pass a test.
abbrev pub count {ℓ} : {A : Type ℓ} → (A → Bool) → List A → ℕ
count test [] = 0
count test (x ∷ xs) = (if test x then 1 else 0) + count test xs

-- How many earlier slots go to the same expert as slot i.
abbrev pub rank : List ℕ → ℕ → ℕ
rank es i = count (λ e. e == get_or es i 0) (take i es)

-- Slot i stands before slot j: its expert is smaller, or it is the same and i came first.
abbrev pub earlier : List ℕ → ℕ → ℕ → Bool
earlier es i j = ltb (get_or es i 0) (get_or es j 0) || (get_or es i 0 == get_or es j 0 && ltb i j)

module _ {ℓ} {A : Type ℓ} (test : A → Bool) where
  count-permᴰ : {xs ys : List A} → Permᴰ xs ys → count test xs ≡ count test ys
  count-permᴰ Permᴰ.nil = refl
  count-permᴰ (Permᴰ.cons e p) = rw (e, count-permᴰ p) refl
  count-permᴰ (Permᴰ.swap {a' = x} {b' = y} e f) = rw (e, f) (omega arith)
  count-permᴰ (Permᴰ.trans p q) = count-permᴰ p ∙ count-permᴰ q

  pub count-perm : {xs ys : List A} → Perm xs ys → count test xs ≡ count test ys
  count-perm p = ∥∥₁_elim p (ℕ_set _ _) count-permᴰ

take-nil : (n : ℕ) → take {A = ℕ} n [] ≡ []
take-nil zero = refl
take-nil (suc n) = refl

-- The count over the slots from s on, for a suffix of the experts that starts there.
count-earlier_from :
    (es : List ℕ) (j s : ℕ) (xs : List ℕ)
    → ((i : ℕ) → i < length xs → get_or es (s + i) 0 ≡ get_or xs i 0)
    → count (λ i. earlier es i j) (range_from s (length xs))
      ≡ count (λ e. ltb e (get_or es j 0)) xs + count (λ e. e == get_or es j 0) (take (j - s) xs)
count-earlier_from es j s [] h = rw (take-nil (j - s)) (omega arith)
count-earlier_from es j s (x ∷ xs) h =
    let here : get_or es s 0 ≡ x = ap (λ n. get_or es n 0) (omega arith) ∙ h 0 (omega arith) in
    let rest =
      count-earlier_from es j (suc s) xs
        (λ i k. ap (λ n. get_or es n 0) (omega arith) ∙ h (suc i) (omega arith)) in
    elim (Bool-cases (ltb s j)) [
      | inl e ↦
          let front : j - s ≡ suc (j - suc s) = ground arith in
          rw (here, front, e) (ground (arith, rest))
      | inr e ↦
          let none_left : j - s ≡ 0 = ground arith in
          let none_after : j - suc s ≡ 0 = ground arith in
          rw (here, none_left, e) (ground (arith, rw none_after at rest))
    ]

-- The slots before slot j, in the order by expert and arrival: those of smaller experts, and the
-- earlier ones of its own.
pub count-earlier :
    (es : List ℕ) (j : ℕ)
    → count (λ i. earlier es i j) (range (length es))
      ≡ count (λ e. ltb e (get_or es j 0)) es + rank es j
count-earlier es j =
    let e : j - 0 ≡ j = omega arith in
    rw e at (count-earlier_from es j 0 es (λ i h. ap (λ n. get_or es n 0) (omega arith)))
