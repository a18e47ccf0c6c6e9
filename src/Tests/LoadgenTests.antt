-- ===== src/Tests/LoadgenTests.antt =====
-- A request of twenty tokens over two blocks of sixteen.
use sched_pass.Prelude.{ℕ, ◌+◌, ◌≡◌, refl, inl, List, [], ◌∷◌, length, take, arith}
use sched_pass.Dict.{lookup}
use sched_pass.Prelude.Result.{ok, err, value_error}
use sched_pass.Prelude.Exec.{◌>>=◌}
use sched_pass.Loadgen.{Request, Cache, craft_input_ids, extend_blocks, block_tokens}
use sched_pass.Loadgen.Blocks.{IsFresh}
use sched_pass.Loadgen.Craft.{tokens, craft_input_ids-prefix}

abbrev counting : ℕ → ℕ → ℕ → ℕ
counting seed vocab i = seed + i

abbrev request : Request
request = record { input_length = 20; hash_ids = 0 ∷ 1 ∷ []; chat_id = 3 }

empty-IsFresh : IsFresh counting []
unfolding lookup
empty-IsFresh key = inl refl

craft_run :
    (craft_input_ids counting request 100 16 []).0
    ≡ ok (
        2654435769 ∷ 2654435770 ∷ 2654435771 ∷ 2654435772 ∷ 2654435773 ∷ 2654435774 ∷ 2654435775
        ∷ 2654435776 ∷ 2654435777 ∷ 2654435778 ∷ 2654435779 ∷ 2654435780 ∷ 2654435781 ∷ 2654435782
        ∷ 2654435783 ∷ 2654435784 ∷ 5308871530 ∷ 5308871531 ∷ 5308871532 ∷ 5308871533 ∷ [])
unfolding craft_input_ids extend_blocks block_tokens lookup ◌>>=◌
craft_run = refl

craft_input_ids-prefix_example :
    (ids : List ℕ) × (cache : Cache) × (craft_input_ids counting request 100 16 []
      ≡ (ok ids, cache))
    × (length ids ≡ 20)
    × (take 16 ids ≡ take 16 (tokens counting 100 16 (0 ∷ [])))
    × IsFresh counting cache
craft_input_ids-prefix_example =
    craft_input_ids-prefix counting 100 16 request [] 16 (0 ∷ []) (1 ∷ []) empty-IsFresh
      (omega arith) (omega arith) refl (omega arith) (omega arith)

-- without a vocabulary the first draw raises
craft_empty : (craft_input_ids counting request 0 16 []).0 ≡ err value_error
unfolding craft_input_ids extend_blocks block_tokens lookup ◌>>=◌
craft_empty = refl
