-- ===== src/Controller/Completion.antt =====
-- Total completion time over whole numbers, the quantity of `_span`, and sorting by cost.
use mathlib.Core.List.{Permᴰ, is_set}
use mathlib.Core.Logic.{∥∥₁_elim}
use native.Mathlib.Nat.{ℕ_set}
use sched_pass.Prelude.{
  ℕ, ◌+◌, ◌≤◌, ◌≡◌, refl, sym, ap, ap₂, ◌∙◌, inl, inr, Bool, true, false, List, [], ◌∷◌, ltb, arith,
  Perm, Bool-cases,
}
use sched_pass.Sort.{insert_by, sorted_by}

-- The costs in their order, after c: each request completes after those in front of it.
abbrev pub completion : ℕ → List ℕ → ℕ
completion c [] = 0
completion c (v ∷ vs) = c + v + completion (c + v) vs

abbrev pub costlier : ℕ → ℕ → Bool
costlier a b = ltb b a

-- longest first
abbrev pub descending : List ℕ → List ℕ
descending = sorted_by costlier

completion_swap :
    (c x y : ℕ) (vs : List ℕ) → x ≤ y → completion c (x ∷ y ∷ vs) ≤ completion c (y ∷ x ∷ vs)
completion_swap c x y vs h = let e : c + x + y ≡ c + y + x = omega arith in rw e (omega arith)

completion-insert :
    (c x : ℕ) (vs : List ℕ) → completion c (x ∷ vs) ≤ completion c (insert_by costlier x vs)
unfolding insert_by
completion-insert c x [] = omega arith
completion-insert c x (v ∷ vs) = elim (Bool-cases (ltb x v)) [
  | inl e ↦
      let swapped = completion_swap c x v vs (ground arith) in
      let rest = completion-insert (c + v) x vs in rw e (omega arith)
  | inr e ↦ rw e (omega arith)
]

-- Longest first has the largest total completion time.
pub completion-descending : (c : ℕ) (vs : List ℕ) → completion c vs ≤ completion c (descending vs)
unfolding sorted_by
completion-descending c [] = omega arith
completion-descending c (v ∷ vs) =
    let rest = completion-descending (c + v) vs in
    let front = completion-insert c v (descending vs) in omega arith

insert_nil : (x : ℕ) → insert_by costlier x [] ≡ x ∷ []
unfolding insert_by
insert_nil x = refl

insert_past :
    (x v : ℕ) (vs : List ℕ)
    → ltb x v ≡ true
    → insert_by costlier x (v ∷ vs) ≡ v ∷ insert_by costlier x vs
unfolding insert_by
insert_past x v vs e = rw e refl

insert_here : (x v : ℕ) (vs : List ℕ) → ltb x v ≡ false → insert_by costlier x (v ∷ vs) ≡ x ∷ v ∷ vs
unfolding insert_by
insert_here x v vs e = rw e refl

-- Two items that both go to the front of a list.
insert_level :
    (x y : ℕ) (vs : List ℕ)
    → insert_by costlier x vs ≡ x ∷ vs
    → insert_by costlier y vs ≡ y ∷ vs
    → insert_by costlier x (y ∷ vs) ≡ insert_by costlier y (x ∷ vs)
insert_level x y vs h k = elim (Bool-cases (ltb x y)) [
  | inl e ↦
      let e' : ltb y x ≡ false = ground arith in
      insert_past x y vs e ∙ ap (◌∷◌ y) h ∙ sym (insert_here y x vs e')
  | inr e ↦ elim (Bool-cases (ltb y x)) [
    | inl e' ↦ insert_here x y vs e ∙ sym (insert_past y x vs e' ∙ ap (◌∷◌ x) k)
    | inr e' ↦
        let same : x ≡ y = ground arith in
        ap₂ (λ a b. insert_by costlier a (b ∷ vs)) same (sym same)
  ]
]

insert_comm :
    (x y : ℕ) (vs : List ℕ)
    → insert_by costlier x (insert_by costlier y vs)
      ≡ insert_by costlier y (insert_by costlier x vs)
insert_comm x y [] =
    rw (insert_nil x, insert_nil y) (insert_level x y [] (insert_nil x) (insert_nil y))
insert_comm x y (v ∷ vs) = elim (Bool-cases (ltb x v)) [
  | inl e ↦ elim (Bool-cases (ltb y v)) [
    | inl e' ↦
        rw (insert_past y v vs e', insert_past x v vs e)
          (insert_past x v _ e ∙ ap (◌∷◌ v) (insert_comm x y vs) ∙ sym (insert_past y v _ e'))
    | inr e' ↦
        let low : ltb x y ≡ true = ground arith in
        rw (insert_here y v vs e', insert_past x v vs e)
          (insert_past x y (v ∷ vs) low
            ∙ ap (◌∷◌ y) (insert_past x v vs e)
            ∙ sym (insert_here y v (insert_by costlier x vs) e'))
  ]
  | inr e ↦ elim (Bool-cases (ltb y v)) [
    | inl e' ↦
        let low : ltb y x ≡ true = ground arith in
        rw (insert_past y v vs e', insert_here x v vs e)
          (insert_here x v (insert_by costlier y vs) e
            ∙ sym (insert_past y x (v ∷ vs) low ∙ ap (◌∷◌ x) (insert_past y v vs e')))
    | inr e' ↦
        rw (insert_here y v vs e', insert_here x v vs e)
          (insert_level x y (v ∷ vs) (insert_here x v vs e) (insert_here y v vs e'))
  ]
]

descending-permᴰ : {xs ys : List ℕ} → Permᴰ xs ys → descending xs ≡ descending ys
unfolding sorted_by
descending-permᴰ Permᴰ.nil = refl
descending-permᴰ (Permᴰ.cons e p) = rw (e, descending-permᴰ p) refl
descending-permᴰ (Permᴰ.swap {a' = x} {b' = y} {l = l} e f) =
    rw (e, f) (insert_comm y x (descending l))
descending-permᴰ (Permᴰ.trans p q) = descending-permᴰ p ∙ descending-permᴰ q

pub descending-perm : {xs ys : List ℕ} → Perm xs ys → descending xs ≡ descending ys
descending-perm p = ∥∥₁_elim p (is_set ℕ_set _ _) descending-permᴰ
