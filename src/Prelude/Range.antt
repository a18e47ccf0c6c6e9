-- ===== src/Prelude/Range.antt =====
-- `range(n)`, as the list of the numbers from a start.
use Prim.Native.Nat.{ℕ, zero, suc, ◌+◌, ◌-◌, ◌<◌, min}
use mathlib.Core.Path.{◌≡◌, refl, ap, ap₂, ◌∙◌}
use mathlib.Core.List.{List, [], ◌∷◌, ◌++◌, filter}
use mathlib.Core.Logic.{if_pos, if_neg}
use mathlib.Core.Option.{some}
use native.Mathlib.Decide.{dec_lt}
use native.Mathlib.Omega.{arith}
use sched_pass.Prelude.Lists.{length, get_elem?}

-- start, start + 1, …: count of them
abbrev pub range_from : ℕ → ℕ → List ℕ
range_from start zero = []
range_from start (suc count) = start ∷ range_from (suc start) count

abbrev pub range : ℕ → List ℕ
range n = range_from 0 n

pub length-range_from : (start count : ℕ) → length (range_from start count) ≡ count
length-range_from start zero = refl
length-range_from start (suc count) = ap suc (length-range_from (suc start) count)

pub range_from-append :
    (start m n : ℕ) → range_from start (m + n) ≡ range_from start m ++ range_from (start + m) n
range_from-append start zero n = ap₂ range_from (sum_zero start) (zero_sum n)
  where
    sum_zero : (a : ℕ) → a ≡ a + zero
    sum_zero a = omega arith

    zero_sum : (a : ℕ) → zero + a ≡ a
    zero_sum a = omega arith
range_from-append start (suc m) n =
    ap (range_from start) (suc_sum m n)
    ∙ ap (◌∷◌ start) (
        range_from-append (suc start) m n
        ∙ ap (λ s. range_from (suc start) m ++ range_from s n) (shift start m))
  where
    suc_sum : (a b : ℕ) → suc a + b ≡ suc (a + b)
    suc_sum a b = omega arith

    shift : (a b : ℕ) → suc a + b ≡ a + suc b
    shift a b = omega arith

-- In `range_from` every item lies between the start and its end, and it is all of those.
pub get_elem?-range_from :
    (start count i : ℕ) → i < count → get_elem? (range_from start count) i ≡ some (start + i)
get_elem?-range_from start zero i h = absurd (omega arith)
get_elem?-range_from start (suc count) zero h = ap some (omega arith)
get_elem?-range_from start (suc count) (suc i) h =
    get_elem?-range_from (suc start) count i (omega arith) ∙ ap some (omega arith)

-- Cutting a range at a bound.
pub filter-range_from :
    (n start count : ℕ)
    → filter (λ x. dec_lt x n) (range_from start count) ≡ range_from start (min count (n - start))
filter-range_from n start zero = ap (range_from start) (zero_min (n - start))
  where
    zero_min : (a : ℕ) → 0 ≡ min 0 a
    zero_min a = omega arith
filter-range_from n start (suc count) = elim (dec_lt start n) [
  | yes h ↦
      let e : min (suc count) (n - start) ≡ suc (min count (n - suc start)) = omega arith in
      rw (if_pos _ h, e, filter-range_from n (suc start) count)
  | no h ↦
      let e : min (suc count) (n - start) ≡ 0 = omega arith in
      let e' : min count (n - suc start) ≡ 0 = omega arith in
      rw (if_neg _ h, e, filter-range_from n (suc start) count, e')
]
