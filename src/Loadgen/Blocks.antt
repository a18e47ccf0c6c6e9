-- ===== src/Loadgen/Blocks.antt =====
-- The blocks of tokens and their cache.
use sched_pass.Prelude.{
  ℕ, ◌+◌, ◌*◌, ◌≡◌, refl, ap, ◌∙◌, some, none, length, Bool-cases, inl, inr, ◌⊎◌, arith, range,
  length-map, length-range_from,
}
use sched_pass.Dict.{lookup, insert}
use sched_pass.Dict.Laws.{IsKeys, lookup-insert_if}
use sched_pass.Loadgen.{same_key, cache_keys, Cache, drawn}
use sched_pass.Loadgen.Total.{total_block}

cache_keys-IsKeys : IsKeys cache_keys
cache_keys-IsKeys = record {
  same_refl = λ a. ground arith;
  same_eq = λ a b h.
      let e0 : a.0 ≡ b.0 = ground arith in
      let e1 : a.1 ≡ b.1 = ground arith in
      let e2 : a.2 ≡ b.2 = ground arith in λ i. (e0 i, e1 i, e2 i);
}

module _ (draw : ℕ → ℕ → ℕ → ℕ) where
  -- Each block in the cache is the one that its key draws.
  abbrev pub IsFresh : Cache → Type 0
  IsFresh cache =
      (key : ℕ × ℕ × ℕ)
      → (lookup cache_keys cache key ≡ none) ⊎ (lookup cache_keys cache key ≡ some (drawn draw key))

  insert-IsFresh :
      (key : ℕ × ℕ × ℕ) (cache : Cache)
      → IsFresh cache
      → IsFresh (insert cache_keys cache key (drawn draw key))
  insert-IsFresh key cache fresh other =
      let found = lookup-insert_if cache_keys cache_keys-IsKeys cache key other (drawn draw key) in
      elim (Bool-cases (same_key key other)) [
        | inl e ↦
            let equal : drawn draw key ≡ drawn draw other =
              ap (drawn draw) (cache_keys-IsKeys.same_eq key other e) in
            inr (rw e at found ∙ ap some equal)
        | inr e ↦ elim (fresh other) [
          | inl none_there ↦ inl (rw e at found ∙ none_there)
          | inr there ↦ inr (rw e at found ∙ there)
        ]
      ]

  -- `total_block` returns what the hash draws, from the cache or not, and keeps the cache fresh.
  pub total_block-drawn :
      (hash_id vocab block : ℕ) (cache : Cache)
      → IsFresh cache
      → ((total_block draw hash_id vocab block cache).0 ≡ drawn draw (hash_id, vocab, block))
        × IsFresh (total_block draw hash_id vocab block cache).1
  unfolding total_block
  total_block-drawn hash_id vocab block cache fresh =
      let key : ℕ × ℕ × ℕ = (hash_id, vocab, block) in
      elim (fresh key) [
        | inl e ↦ rw (total_block, e) (refl, insert-IsFresh key cache fresh)
        | inr e ↦ rw (total_block, e) (refl, fresh)
      ]

  pub length-drawn : (hash_id vocab block : ℕ) → length (drawn draw (hash_id, vocab, block)) ≡ block
  length-drawn hash_id vocab block =
      length-map (draw (hash_id * 2654435761 + 0x9E3779B9) vocab) (range block)
      ∙ length-range_from 0 block
