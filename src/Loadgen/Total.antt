-- ===== src/Loadgen/Total.antt =====
-- The functions of the load generator with a vocabulary that is not empty, where no draw raises.
use Prim.Native.Nat.{bit_xor}
use sched_pass.Prelude.{
  ℕ, ◌<◌, ◌≡◌, refl, false, some, none, List, [], ◌∷◌, ◌++◌, if◌then◌else◌, leb, ◌==◌, length, take,
  Bool-cases, Option-cases, inl, inr, arith,
}
use sched_pass.Prelude.Result.{ok}
use sched_pass.Prelude.Exec.{◌>>=◌}
use sched_pass.Dict.{lookup, insert}
use sched_pass.Loadgen.{
  Request, Cache, cache_keys, drawn, pad_to, wanted, block_tokens, extend_blocks, craft_input_ids,
}

module _ (draw : ℕ → ℕ → ℕ → ℕ) where
  unfoldable pub total_block : ℕ → ℕ → ℕ → Cache → List ℕ × Cache
  unfolding lookup insert
  total_block hash_id vocab block cache =
      let key : ℕ × ℕ × ℕ = (hash_id, vocab, block) in
      elim (lookup cache_keys cache key) [
        | some b ↦ (b, cache)
        | none ↦ (drawn draw key, insert cache_keys cache key (drawn draw key))
      ]

  -- the loop on `hash_ids`
  unfoldable pub total_blocks : ℕ → ℕ → ℕ → List ℕ → List ℕ → Cache → List ℕ × Cache
  unfolding total_block
  total_blocks vocab block want ids [] cache = (ids, cache)
  total_blocks vocab block want ids (h ∷ hashes) cache =
      let (b, cache') = total_block h vocab block cache in
      let rest = total_blocks vocab block want (ids ++ b) hashes cache' in
      if leb want (length (ids ++ b)) then (ids ++ b, cache') else rest

  -- A block has a token at least, so that as many rounds as tokens are enough.
  unfoldable pub total_ids : Request → ℕ → ℕ → Cache → List ℕ × Cache
  unfolding total_blocks pad_to
  total_ids rec vocab block cache =
      let want = wanted block rec in
      let (ids, cache') = total_blocks vocab block want [] rec.hash_ids cache in
      let (pad, cache'') = total_block (bit_xor 0x7FFFFFFF rec.chat_id) vocab block cache' in
      if leb want (length ids)
      then (take want ids, cache')
      else (take want (pad_to want want pad ids), cache'')

module _ (draw : ℕ → ℕ → ℕ → ℕ) (vocab block : ℕ) (nonempty : 0 < vocab) where
  block_tokens-total :
      (hash_id : ℕ) (cache : Cache)
      → block_tokens draw hash_id vocab block cache ≡ (
        ok (total_block draw hash_id vocab block cache).0,
        (total_block draw hash_id vocab block cache).1,
      )
  unfolding block_tokens total_block
  block_tokens-total hash_id cache =
      let drawable : (vocab == 0) ≡ false = ground arith in
      elim (Option-cases (lookup cache_keys cache (hash_id, vocab, block))) [
        | inl e ↦ rw (block_tokens, total_block, e, drawable) refl
        | inr (b, e) ↦ rw (block_tokens, total_block, e) refl
      ]

  extend_blocks-total :
      (want : ℕ) (ids hashes : List ℕ) (cache : Cache)
      → extend_blocks draw vocab block want ids hashes cache ≡ (
        ok (total_blocks draw vocab block want ids hashes cache).0,
        (total_blocks draw vocab block want ids hashes cache).1,
      )
  unfolding extend_blocks total_blocks ◌>>=◌
  extend_blocks-total want ids [] cache = refl
  extend_blocks-total want ids (h ∷ hashes) cache =
      let b = (total_block draw h vocab block cache).0 in
      elim (Bool-cases (leb want (length (ids ++ b)))) [
        | inl e ↦ rw (extend_blocks, block_tokens-total h cache, total_blocks, e) refl
        | inr e ↦
            rw (extend_blocks, block_tokens-total h cache, total_blocks, e)
              (extend_blocks-total want (ids ++ b) hashes (total_block draw h vocab block cache).1)
      ]

  pub craft_input_ids-total :
      (rec : Request) (cache : Cache)
      → craft_input_ids draw rec vocab block cache
        ≡ (ok (total_ids draw rec vocab block cache).0, (total_ids draw rec vocab block cache).1)
  unfolding craft_input_ids total_ids ◌>>=◌
  craft_input_ids-total rec cache =
      let want = wanted block rec in
      let (ids, cache') = total_blocks draw vocab block want [] rec.hash_ids cache in
      let looped = extend_blocks-total want [] rec.hash_ids cache in
      elim (Bool-cases (leb want (length ids))) [
        | inl e ↦ rw (craft_input_ids, looped, total_ids, e) refl
        | inr e ↦
            rw
              (
                craft_input_ids,
                looped,
                total_ids,
                e,
                block_tokens-total (bit_xor 0x7FFFFFFF rec.chat_id) cache',
              )
              refl
      ]
