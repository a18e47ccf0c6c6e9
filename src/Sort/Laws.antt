-- ===== src/Sort/Laws.antt =====
-- The laws of `sorted_by`: its items and their order.
use mathlib.Core.List.{Pairwise-singleton, forall_mem-cons}
use mathlib.Core.List.Perm
use sched_pass.Prelude.{◌≡◌, Bool, true, false, List, [], ◌∷◌, Perm, Pairwise, Bool-cases, inl, inr}
use sched_pass.Sort.{insert_by, sorted_by}

module _ {ℓ} {A : Type ℓ} (before : A → A → Bool) where
  pub insert_by-perm : (x : A) (ys : List A) → Perm (insert_by before x ys) (x ∷ ys)
  unfolding insert_by
  insert_by-perm x [] = Perm.rfl
  insert_by-perm x (y ∷ ys) = elim (Bool-cases (before y x)) [
    | inl e ↦ rw e (Perm.trans (Perm.cons y (insert_by-perm x ys)) (Perm.swap x y ys))
    | inr e ↦ rw e Perm.rfl
  ]

  pub sorted_by-perm : (xs : List A) → Perm (sorted_by before xs) xs
  unfolding sorted_by
  sorted_by-perm [] = Perm.rfl
  sorted_by-perm (x ∷ xs) =
      Perm.trans (insert_by-perm x (sorted_by before xs)) (Perm.cons x (sorted_by-perm xs))

-- What a strict weak order gives: a key test that is asymmetric, and whose failure is transitive.
pub record IsWeakOrder {ℓ} {A : Type ℓ} (before : A → A → Bool) : Type ℓ where
  pub asym : (a b : A) → before a b ≡ true → before b a ≡ false
  pub trans : (a b c : A) → before b a ≡ false → before c b ≡ false → before c a ≡ false

module _ {ℓ} {A : Type ℓ} (before : A → A → Bool) where
  -- `a` may stand in front of `b`.
  abbrev pub InOrder : A → A → Type 0
  InOrder a b = before b a ≡ false

  abbrev pub IsSorted : List A → Type ℓ
  IsSorted = Pairwise InOrder

module _ {ℓ} {A : Type ℓ} (before : A → A → Bool) (order : IsWeakOrder before) where
  in_order_prop : (a b : A) → IsProp (before b a ≡ false)
  in_order_prop a b = hlevel

  insert_by-IsSorted :
      (x : A) {ys : List A} → IsSorted before ys → IsSorted before (insert_by before x ys)
  unfolding insert_by
  insert_by-IsSorted x Pairwise.nil = Pairwise-singleton _ x
  insert_by-IsSorted x (Pairwise.cons {a = y} {l = ys} below s) = elim (Bool-cases (before y x)) [
    | inl e ↦ rw e (
        Pairwise.cons
          (λ z m.
            (forall_mem-cons (λ z. in_order_prop y z)).1 (order.asym y x e, below) z
              ((Perm.mem_iff (insert_by-perm before x ys)).0 m))
          (insert_by-IsSorted x s))
    | inr e ↦ rw e (
        Pairwise.cons
          ((forall_mem-cons (λ z. in_order_prop x z)).1 (e, λ z m. order.trans x y z e (below z m)))
          (Pairwise.cons below s))
  ]

  pub sorted_by-IsSorted : (xs : List A) → IsSorted before (sorted_by before xs)
  unfolding sorted_by
  sorted_by-IsSorted [] = Pairwise.nil
  sorted_by-IsSorted (x ∷ xs) = insert_by-IsSorted x (sorted_by-IsSorted xs)
