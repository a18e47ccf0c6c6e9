-- ===== src/Prelude/Perms.antt =====
-- Rearrangements and native lengths.
use mathlib.Core.Path.{◌≡◌, refl, ◌∙◌}
use mathlib.Core.Logic.{∥∥₁_elim}
use mathlib.Core.List.{List, ◌++◌, Perm, Permᴰ, append_assoc, reverse}
use mathlib.Core.List.Perm
use mathlib.Core.List.Permᴰ
use native.Mathlib.Nat.{ℕ_set}
use native.Mathlib.Omega.{arith}
use sched_pass.Prelude.Lists.{length}

module _ {ℓ} {A : Type ℓ} where
  length-permᴰ : {xs ys : List A} → Permᴰ xs ys → length xs ≡ length ys
  length-permᴰ Permᴰ.nil = refl
  length-permᴰ (Permᴰ.cons e p) = omega (arith, length-permᴰ p)
  length-permᴰ (Permᴰ.swap e f) = refl
  length-permᴰ (Permᴰ.trans p q) = length-permᴰ p ∙ length-permᴰ q

  pub length-perm : {xs ys : List A} → Perm xs ys → length xs ≡ length ys
  length-perm p = ∥∥₁_elim p (ℕ_set _ _) length-permᴰ

  pub append_comm : (xs ys : List A) → Perm (xs ++ ys) (ys ++ xs)
  append_comm xs ys = ∣ Permᴰ.append_comm xs ys ∣₁

  pub append_swap : (xs ys zs : List A) → Perm (xs ++ (ys ++ zs)) (ys ++ (xs ++ zs))
  append_swap xs ys zs = simp append_assoc at (Perm.append_right zs (append_comm xs ys))

  pub reverse-perm : (xs : List A) → Perm (reverse xs) xs
  reverse-perm xs = ∣ Permᴰ.reverse xs ∣₁

  pub length-reverse : (xs : List A) → length (reverse xs) ≡ length xs
  length-reverse xs = length-perm (reverse-perm xs)
