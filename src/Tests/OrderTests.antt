-- ===== src/Tests/OrderTests.antt =====
-- The orders of `_grouped_lpt` and `region_order` on small batches.
use sched_pass.Prelude.{
  dec_lt, ℕ, ◌+◌, ◌≡◌, refl, List, [], ◌∷◌, ◌++◌, none, arith, Perm, range, reverse, length, Mem,
  Pairwise,
}
use sched_pass.Prelude.Int.{pos, negsuc}
use sched_pass.Sort.{sorted_by}
use sched_pass.Rt.Order.{grouped_lpt, region_order}
use sched_pass.Rt.Order.Grouped.{grouped_lpt-blocks, tiles_of_blocks, block_costs}
use sched_pass.Rt.Order.Split.{
  region_order-perm, region_order-extremes, alternate, heavies, lights, middle, NotBelow,
}
use sched_pass.Tests.Instances.{exact_torch, exact_torch-IsTorch, sum}

abbrev costs : List ℕ
costs = 3 ∷ 9 ∷ 1 ∷ 7 ∷ 5 ∷ 8 ∷ 2 ∷ []

-- R = 3 of seven tiles: the two costliest with the cheapest between them, then the rest.
region_run : region_order exact_torch (pos 16) costs (pos 3) none ≡ 1 ∷ 2 ∷ 5 ∷ 3 ∷ 4 ∷ 0 ∷ 6 ∷ []
unfolding region_order sorted_by
region_run = refl

-- Blocks of two tiles with costs 12, 8, 13 and 2.
grouped_run : grouped_lpt exact_torch costs (pos 2) ≡ 4 ∷ 5 ∷ 0 ∷ 1 ∷ 2 ∷ 3 ∷ 6 ∷ []
unfolding grouped_lpt sorted_by sum dec_lt
grouped_run = refl

region_order-perm_example : Perm (region_order exact_torch (negsuc 4) costs (pos 3) none) (range 7)
region_order-perm_example =
    region_order-perm exact_torch exact_torch-IsTorch (negsuc 4) costs (pos 3) none

grouped_lpt-blocks_example :
    grouped_lpt exact_torch costs (pos 2)
    ≡ tiles_of_blocks 7 2 (exact_torch.argsort (block_costs exact_torch costs 2))
grouped_lpt-blocks_example = grouped_lpt-blocks exact_torch costs 2 (omega arith) (omega arith)

region_order-extremes_example :
    (region_order exact_torch (pos 16) costs (pos 3) none
      ≡ alternate (heavies exact_torch costs 3) (reverse (lights exact_torch costs 3))
        ++ middle exact_torch costs 3)
    × (length (heavies exact_torch costs 3) + length (lights exact_torch costs 3) ≡ 3)
    × Pairwise (NotBelow exact_torch costs) (middle exact_torch costs 3)
    × ((i j : ℕ)
        → Mem i (heavies exact_torch costs 3)
        → Mem j (middle exact_torch costs 3)
        → NotBelow exact_torch costs i j)
    × ((i j : ℕ)
        → Mem i (middle exact_torch costs 3)
        → Mem j (lights exact_torch costs 3)
        → NotBelow exact_torch costs i j)
region_order-extremes_example =
    region_order-extremes exact_torch exact_torch-IsTorch (pos 16) costs 3 none (omega arith)
      (omega arith)
