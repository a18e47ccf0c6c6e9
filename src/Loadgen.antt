-- ===== src/Loadgen.antt =====
-- python/sched_trace_loadgen.py, `block_tokens` and `craft_input_ids`: the prompt of a request of
-- the trace, from the hashes of its blocks.
pub mod Total
pub mod Blocks
pub mod Craft
use Prim.Native.Nat.{bit_xor}
use sched_pass.Prelude.{
  ℕ, zero, suc, ◌+◌, ◌*◌, Bool, not, ◌&&◌, Option, none, some, List, [], ◌∷◌, ◌++◌, map,
  if◌then◌else◌, leb, ◌==◌, length, take, range,
}
use sched_pass.Prelude.Result.{ok, err, value_error}
use sched_pass.Prelude.Exec.{Exec, ◌>>=◌, lift}
use sched_pass.Dict.{Keys, lookup, insert}

-- What the record of a request has: `rec.get("input_length", 0)`, `rec.get("hash_ids", [])` and
-- `rec.get("chat_id", 0)`.
pub record Request : Type 0 where
  pub input_length : ℕ
  pub hash_ids : List ℕ
  pub chat_id : ℕ

-- The key of the cache: the hash, the vocabulary and the block size.
abbrev pub same_key : ℕ × ℕ × ℕ → ℕ × ℕ × ℕ → Bool
same_key (h, v, b) (h', v', b') = h == h' && (v == v' && b == b')

abbrev pub cache_keys : Keys
cache_keys = record { Key = ℕ × ℕ × ℕ; same = same_key }

abbrev pub Cache : Type 0
Cache = List ((ℕ × ℕ × ℕ) × List ℕ)

-- `while len(ids) < want: ids.extend(pad)`, for at most the given number of rounds
unfoldable pub pad_to : ℕ → ℕ → List ℕ → List ℕ → List ℕ
pad_to zero want pad ids = ids
pad_to (suc rounds) want pad ids =
    let rest = pad_to rounds want pad (ids ++ pad) in if leb want (length ids) then ids else rest

-- `int(rec.get("input_length", 0)) or block`
abbrev pub wanted : ℕ → Request → ℕ
wanted block rec = if rec.input_length == 0 then block else rec.input_length

-- `draw seed vocab i` is the i-th `randrange(vocab)` of `random.Random(seed)`.
module _ (draw : ℕ → ℕ → ℕ → ℕ) where
  -- the tokens of a hash that is not in the cache
  abbrev pub drawn : ℕ × ℕ × ℕ → List ℕ
  drawn (hash_id, vocab, block) = map (draw (hash_id * 2654435761 + 0x9E3779B9) vocab) (range block)

  -- `randrange` raises where the vocabulary is empty, at the first draw.
  unfoldable pub block_tokens : ℕ → ℕ → ℕ → Exec Cache (List ℕ)
  unfolding lookup insert
  block_tokens hash_id vocab block cache =
      let key : ℕ × ℕ × ℕ = (hash_id, vocab, block) in
      elim (lookup cache_keys cache key) [
        | some b ↦ (ok b, cache)
        | none ↦
            if vocab == 0 && not (block == 0)
            then (err value_error, cache)
            else (ok (drawn key), insert cache_keys cache key (drawn key))
      ]

  -- the loop on `hash_ids`
  unfoldable pub extend_blocks : ℕ → ℕ → ℕ → List ℕ → List ℕ → Exec Cache (List ℕ)
  extend_blocks vocab block want ids [] = lift (ok ids)
  extend_blocks vocab block want ids (h ∷ hashes) = block_tokens h vocab block >>= λ b.
      let rest = extend_blocks vocab block want (ids ++ b) hashes in
      if leb want (length (ids ++ b)) then lift (ok (ids ++ b)) else rest

  -- A block has a token at least, so that as many rounds as tokens are enough.
  unfoldable pub craft_input_ids : Request → ℕ → ℕ → Exec Cache (List ℕ)
  craft_input_ids rec vocab block =
      let want = wanted block rec in
      extend_blocks vocab block want [] rec.hash_ids >>= λ ids.
      if leb want (length ids)
      then lift (ok (take want ids))
      else block_tokens (bit_xor 0x7FFFFFFF rec.chat_id) vocab block >>= λ pad.
          lift (ok (take want (pad_to want want pad ids)))
