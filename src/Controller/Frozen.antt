-- ===== src/Controller/Frozen.antt =====
-- `SchedControlPlane.order` under "lpt" with a last order of the batch's size, on floats that are
-- counts of a unit, up to a limit.
use mathlib.Core.List.Perm
use sched_pass.Prelude.{
  ℕ, ◌+◌, ◌≤◌, ◌≡◌, Bool, true, List, [], ◌∷◌, map, length, ltb, get_or, range, Perm,
}
use sched_pass.Floats.{Floats, fmax}
use sched_pass.Controller.Completion.{completion, descending}

-- Floats that are counts of a unit up to a limit, 2 ^ 53 for Python's: sums that stay within it are
-- exact, the negated ones are ordered the other way round, and a difference that is not positive lies
-- below the dead-band of a count. Nothing is said of sums above the limit, which round or overflow.
pub record IsExact (f : Floats) (deadband : f.Float) : Type 1 where
  pub IsCount : f.Float → Type 0
  pub value : f.Float → ℕ
  pub limit : ℕ
  pub zero_count : IsCount f.zero_float
  pub zero_value : value f.zero_float ≡ 0
  pub add_count :
      (x y : f.Float) → IsCount x → IsCount y → value x + value y ≤ limit → IsCount (f.fadd x y)
  pub add_value :
      (x y : f.Float)
      → IsCount x
      → IsCount y
      → value x + value y ≤ limit
      → value (f.fadd x y) ≡ value x + value y
  pub neg_order :
      (x y : f.Float)
      → IsCount x
      → IsCount y
      → f.flt (f.fneg x) (f.fneg y) ≡ ltb (value y) (value x)
  pub no_gain :
      (x y : f.Float)
      → IsCount x
      → IsCount y
      → value x ≤ value y
      → f.flt (f.fsub x y) (f.fmul deadband (fmax f y f.tiny)) ≡ true

-- the comparison of two requests by the key `-t_hat[i]`
abbrev lpt_before : (f : Floats) → List f.Float → ℕ → ℕ → Bool
lpt_before f t_hat i j =
    f.flt (get_or (map f.fneg t_hat) i f.zero_float) (get_or (map f.fneg t_hat) j f.zero_float)

module _ (f : Floats) (deadband : f.Float) (exact : IsExact f deadband) where
  open f use {Float, zero_float, fadd, fneg}
  open exact use {IsCount, value, limit}

  abbrev pub AllCounts : List Float → Type 0
  AllCounts [] = Unit
  AllCounts (t ∷ ts) = IsCount t × AllCounts ts

  module _ (t_hat : List Float) (counts : AllCounts t_hat) where
    -- the cycles of request i
    abbrev cost : ℕ → ℕ
    cost i = value (get_or t_hat i zero_float)

    abbrev before : ℕ → ℕ → Bool
    before = lpt_before f t_hat

    -- The greatest total completion time of the batch, longest first, stays within the limit.
    abbrev pub Fits : Type 0
    Fits = completion 0 (descending (map cost (range (length t_hat)))) ≤ limit
