-- ===== src/Tests/PluginTests.antt =====
-- Two requests on four tiles, of which the last was not measured.
use sched_pass.Prelude.{ℕ, ◌%◌, ◌≡◌, refl, some, List, [], ◌∷◌, map, length, get_or, arith}
use sched_pass.Prelude.Int.{ℤ, pos}
use sched_pass.Prelude.Result.{ok}
use sched_pass.Plugin.Plan.{IsBinding, plan_request_indices-IsBinding}
use sched_pass.Plugin.{
  plan_request_indices, read_plan, is_bound, field, words_of, word, fold_cycles, clamp, scatter_add,
}
use sched_pass.Plugin.Fold.{tile_sum, fold_cycles-tile_sum}

fold_run :
    fold_cycles 2 4 (some (map pos (0 ∷ 1 ∷ 0 ∷ 1 ∷ []))) (10 ∷ 20 ∷ 30 ∷ []) ≡ ok (40 ∷ 20 ∷ [])
unfolding fold_cycles clamp scatter_add
fold_run = refl

fold_cycles-tile_sum_example :
    (sums : List ℕ) × (fold_cycles 2 4 (some (map pos (0 ∷ 1 ∷ 0 ∷ 1 ∷ []))) (10 ∷ 20 ∷ 30 ∷ [])
      ≡ ok sums)
    × (length sums ≡ 2)
    × ((r : ℕ) → get_or sums r 0 % word ≡ tile_sum r (0 ∷ 1 ∷ 0 ∷ []) (10 ∷ 20 ∷ 30 ∷ []) % word)
fold_cycles-tile_sum_example =
    fold_cycles-tile_sum 2 4 (0 ∷ 1 ∷ 0 ∷ 1 ∷ []) (10 ∷ 20 ∷ 30 ∷ []) (omega arith)
      (omega arith, (omega arith, (omega arith, (omega arith, tt))))

-- A plan of two tiles at offset 4, which needs its third slot.
abbrev plan_vec : List ℤ
plan_vec = pos 2 ∷ pos 4 ∷ pos 1 ∷ []

abbrev plan_bytes : List ℕ
plan_bytes = 9 ∷ 9 ∷ 9 ∷ 9 ∷ 1 ∷ 0 ∷ 0 ∷ 0 ∷ 0 ∷ 0 ∷ 0 ∷ 0 ∷ []

plan_run :
    plan_request_indices (some plan_vec) (some plan_bytes) 2 3 1 (some 2)
    ≡ ok (some (pos 1 ∷ pos 0 ∷ []), pos 2)
unfolding plan_request_indices read_plan is_bound field words_of
plan_run = refl

plan_request_indices-IsBinding_example :
    IsBinding 2 (plan_request_indices (some plan_vec) (some plan_bytes) 2 3 1 (some 2))
plan_request_indices-IsBinding_example =
    plan_request_indices-IsBinding (some plan_vec) (some plan_bytes) 2 3 1 (some 2) (omega arith)
      (omega arith) (omega arith)
