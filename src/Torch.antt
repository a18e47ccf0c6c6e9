-- ===== src/Torch.antt =====
-- What the control plane uses of torch, a third-party package: a parameter of the model. Scalars
-- are the float32 values of a tensor, and a tensor of one dimension is the list of its values.
use sched_pass.Prelude.{ℕ, ◌≡◌, Bool, false, List, Perm, Pairwise, length, get_or, range}

pub record Torch : Type 1 where
  pub Scalar : Type 0
  pub zero_scalar : Scalar
  -- `a < b`
  pub below : Scalar → Scalar → Bool
  -- `torch.argsort(c, descending=True)`
  pub argsort : List Scalar → List ℕ
  -- one row of `.sum(1)`
  pub row_sum : List Scalar → Scalar
  -- `torch.empty(n)`: a tensor of n entries, with what the memory held
  pub empty : ℕ → List ℕ

-- The documented behaviour of `argsort` and `empty`: the indices of a tensor, in an order that
-- puts the larger values first, and a tensor of the requested size.
pub record IsTorch (t : Torch) : Type 0 where
  pub argsort_perm : (c : List t.Scalar) → Perm (t.argsort c) (range (length c))
  pub argsort_descends :
      (c : List t.Scalar)
      → Pairwise
          (λ i j. t.below (get_or c i t.zero_scalar) (get_or c j t.zero_scalar) ≡ false)
          (t.argsort c)
  pub length_empty : (n : ℕ) → length (t.empty n) ≡ n
