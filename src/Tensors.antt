-- ===== src/Tensors.antt =====
-- What the serving hooks use of torch on the float32 tensors of a step, beside the sorting of
-- Torch.antt: a parameter of the model, over the Python floats that the tensors are made from.
use sched_pass.Prelude.{ℕ, Option, List}
use sched_pass.Floats.{Floats}
use sched_pass.Torch.{Torch}

pub record Tensors (f : Floats) (t : Torch) : Type 0 where
  -- `.float()` of an integer entry
  pub of_count : ℕ → t.Scalar
  -- an entry of `torch.as_tensor(l, dtype=torch.float32)`
  pub of_float : f.Float → t.Scalar
  -- an entry of `.tolist()`, or `float(x)`
  pub item : t.Scalar → f.Float
  -- `alpha * x` and `x + beta`
  pub scale : f.Float → t.Scalar → t.Scalar
  pub shift : t.Scalar → f.Float → t.Scalar
  -- `a + b`; none where the sizes do not broadcast
  pub plus : List t.Scalar → List t.Scalar → Option (List t.Scalar)
  -- `x.clamp_min(lo)`
  pub clamp_min : f.Float → t.Scalar → t.Scalar
  -- `c.max()`; none for an empty tensor
  pub largest : List t.Scalar → Option t.Scalar
  pub mean : List t.Scalar → t.Scalar
  pub median : List t.Scalar → t.Scalar
  pub total : List t.Scalar → t.Scalar
  pub divide : t.Scalar → t.Scalar → t.Scalar
  -- 1e-6
  pub millionth : f.Float
  -- `struct`'s "f" format
  pub f32_bits : f.Float → Option ℕ
