-- ===== src/Floats.antt =====
-- What the code uses of Python's floats, as a parameter: the operations and comparisons, and the
-- literals it names. A division stands only where the code has tested its divisor.
use sched_pass.Prelude.Int.{ℤ}
use sched_pass.Prelude.{ℕ, Bool, List, [], ◌∷◌, if◌then◌else◌}

pub record Floats : Type 1 where
  pub Float : Type 0
  -- 0.0, 1.0 and 1e-9
  pub zero_float : Float
  pub one_float : Float
  pub tiny : Float
  -- the float of an integer
  pub of_int : ℕ → Float
  -- `int(x)`, towards 0, of a finite float
  pub to_int : Float → ℤ
  pub fadd : Float → Float → Float
  pub fsub : Float → Float → Float
  pub fmul : Float → Float → Float
  pub fdiv : Float → Float → Float
  pub fneg : Float → Float
  pub fabs : Float → Float
  -- `a < b` and `a <= b`
  pub flt : Float → Float → Bool
  pub fle : Float → Float → Bool

module _ (f : Floats) where
  open f use {Float, zero_float, fadd, flt}

  -- `max(a, b)`: the first one, unless the second is greater
  abbrev pub fmax : Float → Float → Float
  fmax a b = if flt a b then b else a

  -- `for x in xs: s += x`
  unfoldable pub fsum_from : Float → List Float → Float
  fsum_from s [] = s
  fsum_from s (x ∷ xs) = fsum_from (fadd s x) xs

  -- `sum(xs)`: from the left
  unfoldable pub fsum : List Float → Float
  unfolding fsum_from
  fsum xs = fsum_from zero_float xs
