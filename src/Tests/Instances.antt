-- ===== src/Tests/Instances.antt =====
-- Concrete values of the parameters: torch over exact scalars, and a float format of small words.
use sched_pass.Prelude.{
  ℕ, Bool, ◌+◌, List, [], ◌∷◌, none, some, arith, ltb, length, get_or, range, replicate,
  length-replicate, if◌then◌else◌,
}
use sched_pass.Prelude.{true, false, ◌/◌}
use sched_pass.Prelude.Int.{ℤ, pos, pos_part, neg_part, sub_ℕ, ◌+ℤ◌, ◌-ℤ◌, ◌*ℤ◌}
use sched_pass.Floats.{Floats}
use sched_pass.Sort.{sorted_by}
use sched_pass.Sort.Laws.{IsWeakOrder, sorted_by-perm, sorted_by-IsSorted}
use sched_pass.Torch.{Torch, IsTorch}
use sched_pass.Rt.Plane.{FloatFormat}

abbrev costlier : List ℕ → ℕ → ℕ → Bool
costlier c i j = ltb (get_or c j 0) (get_or c i 0)

costlier-IsWeakOrder : (c : List ℕ) → IsWeakOrder (costlier c)
costlier-IsWeakOrder c = record { asym = λ i j h. ground arith; trans = λ i j k h h'. ground arith }

unfoldable pub sum : List ℕ → ℕ
sum [] = 0
sum (x ∷ xs) = x + sum xs

abbrev pub exact_torch : Torch
exact_torch = record {
  Scalar = ℕ;
  zero_scalar = 0;
  below = ltb;
  argsort = λ c. sorted_by (costlier c) (range (length c));
  row_sum = sum;
  empty = λ n. replicate n 77;
}

pub exact_torch-IsTorch : IsTorch exact_torch
exact_torch-IsTorch = record {
  argsort_perm = λ c. sorted_by-perm (costlier c) (range (length c));
  argsort_descends =
      λ c. sorted_by-IsSorted (costlier c) (costlier-IsWeakOrder c) (range (length c));
  length_empty = λ n. length-replicate n 77;
}

-- Numbers below 2 ^ 32 are their own bits; larger ones do not fit.
abbrev pub small_floats : FloatFormat
small_floats = record {
  Float = ℕ;
  f32_bits = λ x. if ltb x 4294967296 then some x else none;
  zero_float = 0;
}

-- Whole numbers as floats.
abbrev pub neg : ℤ → ℤ
neg a = sub_ℕ (neg_part a) (pos_part a)

abbrev pub below : ℤ → ℤ → Bool
below a b = ltb (pos_part a + neg_part b) (pos_part b + neg_part a)

abbrev pub whole_floats : Floats
whole_floats = record {
  Float = ℤ;
  zero_float = pos 0;
  one_float = pos 1;
  tiny = pos 1;
  of_int = pos;
  to_int = λ a. a;
  fadd = ◌+ℤ◌;
  fsub = ◌-ℤ◌;
  fmul = ◌*ℤ◌;
  fdiv = λ a b. pos (pos_part a / pos_part b);
  fneg = neg;
  fabs = λ a. pos (pos_part a + neg_part a);
  flt = below;
  fle = λ a b. if below b a then false else true;
}
