-- ===== src/Loadgen/Craft.antt =====
-- The prompt that `craft_input_ids` makes: its length, and the prefix that its hashes determine.
use Prim.Native.Nat.{bit_xor}
use sched_pass.Prelude.{
  ℕ, zero, suc, ◌+◌, ◌≤◌, ◌<◌, ◌≡◌, refl, ap, sym, ◌∙◌, List, [], ◌∷◌, ◌++◌, length, leb, take,
  Bool-cases, inl, inr, arith, append_assoc, append-nil, length-append, length-take, take-append_le,
}
use sched_pass.Prelude.Result.{ok}
use sched_pass.Loadgen.{Request, Cache, drawn, pad_to, wanted, craft_input_ids}
use sched_pass.Loadgen.Total.{total_block, total_blocks, total_ids, craft_input_ids-total}
use sched_pass.Loadgen.Blocks.{IsFresh, total_block-drawn, length-drawn}

-- Enough rounds of a pad that is not empty reach the wanted length.
length-pad_to :
    (rounds want : ℕ) (pad ids : List ℕ)
    → 0 < length pad
    → want ≤ length ids + rounds
    → want ≤ length (pad_to rounds want pad ids)
unfolding pad_to
length-pad_to zero want pad ids h k = omega arith
length-pad_to (suc rounds) want pad ids h k = elim (Bool-cases (leb want (length ids))) [
  | inl e ↦ rw e (ground arith)
  | inr e ↦
      rw e (length-pad_to rounds want pad (ids ++ pad) h (omega (arith, length-append ids pad)))
]

pad_to-take :
    (rounds want m : ℕ) (pad ids : List ℕ)
    → m ≤ length ids
    → take m (pad_to rounds want pad ids) ≡ take m ids
unfolding pad_to
pad_to-take zero want m pad ids h = refl
pad_to-take (suc rounds) want m pad ids h = elim (Bool-cases (leb want (length ids))) [
  | inl e ↦ rw e refl
  | inr e ↦ rw e (
      pad_to-take rounds want m pad (ids ++ pad) (omega (arith, length-append ids pad))
      ∙ take-append_le m ids pad h)
]

take-take : (m n : ℕ) (xs : List ℕ) → m ≤ n → take m (take n xs) ≡ take m xs
take-take zero n xs h = refl
take-take (suc m) zero xs h = absurd (omega arith)
take-take (suc m) (suc n) [] h = refl
take-take (suc m) (suc n) (x ∷ xs) h = ap (◌∷◌ x) (take-take m n xs (omega arith))

module _ (draw : ℕ → ℕ → ℕ → ℕ) (vocab block : ℕ) where
  -- the tokens of all blocks
  abbrev pub tokens : List ℕ → List ℕ
  tokens [] = []
  tokens (h ∷ hashes) = drawn draw (h, vocab, block) ++ tokens hashes

  pub tokens-append : (hs hs' : List ℕ) → tokens (hs ++ hs') ≡ tokens hs ++ tokens hs'
  tokens-append [] hs' = refl
  tokens-append (h ∷ hs) hs' =
      ap (◌++◌ (drawn draw (h, vocab, block))) (tokens-append hs hs')
      ∙ sym (append_assoc (drawn draw (h, vocab, block)) (tokens hs) (tokens hs'))

  -- What the loop on the hashes makes: at least m tokens, of which the first m are those of all
  -- blocks, for every m up to the wanted length; and the cache stays fresh.
  total_blocks-take :
      (want m : ℕ) (ids hashes : List ℕ) (cache : Cache)
      → IsFresh draw cache
      → m ≤ want
      → m ≤ length (ids ++ tokens hashes)
      → (m ≤ length (total_blocks draw vocab block want ids hashes cache).0)
        × (take m (total_blocks draw vocab block want ids hashes cache).0
            ≡ take m (ids ++ tokens hashes))
  unfolding total_blocks
  total_blocks-take want m ids [] cache fresh h k =
      (omega (arith, length-append ids []), ap (take m) (sym (append-nil ids)))
  total_blocks-take want m ids (hash ∷ hashes) cache fresh h k =
      let (b, cache') = total_block draw hash vocab block cache in
      let (same_block, fresh') = total_block-drawn draw hash vocab block cache fresh in
      let same : ids ++ tokens (hash ∷ hashes) ≡ (ids ++ b) ++ tokens hashes =
        ap (λ x. ids ++ (x ++ tokens hashes)) (sym same_block)
        ∙ sym (append_assoc ids b (tokens hashes)) in
      elim (Bool-cases (leb want (length (ids ++ b)))) [
        | inl e ↦
            let reached : m ≤ length (ids ++ b) = ground arith in
            rw e (
              reached,
              sym (take-append_le m (ids ++ b) (tokens hashes) reached) ∙ ap (take m) (sym same),
            )
        | inr e ↦
            let (long, rest) =
              total_blocks-take want m (ids ++ b) hashes cache' fresh' h (rw same at k) in
            rw e (long, rest ∙ ap (take m) (sym same))
      ]

  total_blocks-IsFresh :
      (want : ℕ) (ids hashes : List ℕ) (cache : Cache)
      → IsFresh draw cache
      → IsFresh draw (total_blocks draw vocab block want ids hashes cache).1
  unfolding total_blocks
  total_blocks-IsFresh want ids [] cache fresh = fresh
  total_blocks-IsFresh want ids (hash ∷ hashes) cache fresh =
      let (b, cache') = total_block draw hash vocab block cache in
      let (_, fresh') = total_block-drawn draw hash vocab block cache fresh in
      elim (Bool-cases (leb want (length (ids ++ b)))) [
        | inl e ↦ rw e fresh'
        | inr e ↦ rw e (total_blocks-IsFresh want (ids ++ b) hashes cache' fresh')
      ]

  -- so the prompt
  total_ids-prefix :
      (rec : Request) (cache : Cache) (m : ℕ) (shared rest : List ℕ)
      → IsFresh draw cache
      → 0 < block
      → rec.hash_ids ≡ shared ++ rest
      → m ≤ wanted block rec
      → m ≤ length (tokens shared)
      → let (ids, cache') = total_ids draw rec vocab block cache in
        (length ids ≡ wanted block rec)
        × (take m ids ≡ take m (tokens shared))
        × IsFresh draw cache'
  unfolding total_ids
  total_ids-prefix rec cache m shared rest fresh h e k l =
      let want = wanted block rec in
      let all : tokens rec.hash_ids ≡ tokens shared ++ tokens rest =
        ap tokens e ∙ tokens-append shared rest in
      let covered : m ≤ length (tokens rec.hash_ids) =
        omega (arith, ap length all, length-append (tokens shared) (tokens rest)) in
      let (ids, cache') = total_blocks draw vocab block want [] rec.hash_ids cache in
      let (long, same) = total_blocks-take want m [] rec.hash_ids cache fresh k covered in
      let fresh' = total_blocks-IsFresh want [] rec.hash_ids cache fresh in
      let (pad, cache'') = total_block draw (bit_xor 0x7FFFFFFF rec.chat_id) vocab block cache' in
      let (pad_block, fresh'') =
        total_block-drawn draw (bit_xor 0x7FFFFFFF rec.chat_id) vocab block cache' fresh' in
      let prefix : take m ids ≡ take m (tokens shared) =
        same ∙ ap (take m) all ∙ take-append_le m (tokens shared) (tokens rest) l in
      elim (Bool-cases (leb want (length ids))) [
        | inl done ↦
            let enough : want ≤ length ids = ground arith in
            rw done (omega (arith, length-take want ids), take-take m want ids k ∙ prefix, fresh')
        | inr more ↦
            let padded = pad_to want want pad ids in
            let pad_size : length pad ≡ block =
              ap length pad_block
              ∙ length-drawn draw (bit_xor 0x7FFFFFFF rec.chat_id) vocab block in
            let enough : want ≤ length padded =
              length-pad_to want want pad ids (omega (arith, pad_size)) (omega arith) in
            rw more (
              omega (arith, length-take want padded),
              take-take m want padded k ∙ pad_to-take want want m pad ids long ∙ prefix,
              fresh'',
            )
      ]

  -- With a fresh cache, blocks of at least one token and a vocabulary that is not empty,
  -- `craft_input_ids` returns. The prompt has exactly the wanted length, the cache stays fresh, and a
  -- prefix of the prompt that the first hashes cover is made of their blocks alone: requests that share
  -- these hashes share it.
  pub craft_input_ids-prefix :
      (rec : Request) (cache : Cache) (m : ℕ) (shared rest : List ℕ)
      → IsFresh draw cache
      → 0 < block
      → 0 < vocab
      → rec.hash_ids ≡ shared ++ rest
      → m ≤ wanted block rec
      → m ≤ length (tokens shared)
      → (ids : List ℕ) × (cache' : Cache) × (craft_input_ids draw rec vocab block cache
          ≡ (ok ids, cache'))
        × (length ids ≡ wanted block rec)
        × (take m ids ≡ take m (tokens shared))
        × IsFresh draw cache'
  craft_input_ids-prefix rec cache m shared rest fresh h nonempty e k l =
      let (size, same, fresh') = total_ids-prefix rec cache m shared rest fresh h e k l in
      (_, _, craft_input_ids-total draw vocab block nonempty rec cache, size, same, fresh')
