-- ===== src/Rt/Order/Grouped.antt =====
-- `_grouped_lpt`: its items, and the blocks of adjacent tiles.
use mathlib.Core.Logic.{∥∥₁_elim}
use mathlib.Core.List.{Permᴰ, Perm-prop, filter-append}
use mathlib.Core.List.Perm
use sched_pass.Prelude.{
  ℕ, zero, suc, ◌+◌, ◌-◌, ◌*◌, ◌/◌, ◌<◌, ◌≤◌, min, ◌≡◌, refl, sym, ap, ap₂, ◌∙◌, ◌||◌, false, List,
  [], ◌∷◌, ◌++◌, map, filter, Perm, if◌then◌else◌, leb, ◌==◌, length, drop, replicate, range_from,
  range, dec_lt, arith, length-map, range_from-append, filter-range_from, append_swap, append-nil,
  Bool-cases, inl, inr,
}
use sched_pass.Prelude.Int.{ℤ, pos, negsuc}
use sched_pass.Torch.{Torch, IsTorch}
use sched_pass.Rt.Order.{chunk, expand, group, grouped_lpt}

length-chunk {ℓ} : {A : Type ℓ} (block nb : ℕ) (xs : List A) → length (chunk block nb xs) ≡ nb
unfolding chunk
length-chunk block zero xs = refl
length-chunk block (suc nb) xs = ap suc (length-chunk block nb (drop block xs))

expand-range_from :
    (block start nb : ℕ)
    → expand block (range_from start nb) ≡ range_from (start * block) (nb * block)
unfolding expand
expand-range_from block start zero = let e : 0 * block ≡ 0 = omega arith in rw e
expand-range_from block start (suc nb) =
    let e : suc nb * block ≡ block + nb * block = omega arith in
    let f : suc start * block ≡ start * block + block = omega arith in
    rw (
      e,
      range_from-append (start * block) block (nb * block),
      expand-range_from block (suc start) nb,
      f,
    )

expand-permᴰ : (block : ℕ) {l l' : List ℕ} → Permᴰ l l' → Perm (expand block l) (expand block l')
unfolding expand
expand-permᴰ block Permᴰ.nil = Perm.rfl
expand-permᴰ block (Permᴰ.cons {a = a} e p) =
    rw (← e) (Perm.append_left (range_from (a * block) block) (expand-permᴰ block p))
expand-permᴰ block (Permᴰ.swap {a = a} {b = b} {l = l} e f) =
    rw (← e, ← f)
      (append_swap (range_from (a * block) block) (range_from (b * block) block) (expand block l))
expand-permᴰ block (Permᴰ.trans p q) = Perm.trans (expand-permᴰ block p) (expand-permᴰ block q)

expand-perm : (block : ℕ) {l l' : List ℕ} → Perm l l' → Perm (expand block l) (expand block l')
expand-perm block p = ∥∥₁_elim p Perm-prop (expand-permᴰ block)

blocks_cover : (n block : ℕ) → 1 < block → n ≤ (n + block - 1) / block * block
blocks_cover n block h = grind arith

filter-expand :
    (n block nb : ℕ) → n ≤ nb * block → filter (λ x. dec_lt x n) (expand block (range nb)) ≡ range n
filter-expand n block nb h =
    let e : 0 * block ≡ 0 = omega arith in
    let f : min (nb * block) (n - 0) ≡ n = omega arith in
    rw (expand-range_from block 0 nb, e, filter-range_from n 0 (nb * block), f)

-- The tiles of the blocks `bs`, in that order: a block is a run of adjacent tiles in ascending
-- order, and the last one ends with the batch.
abbrev pub tiles_of_blocks : ℕ → ℕ → List ℕ → List ℕ
tiles_of_blocks n block [] = []
tiles_of_blocks n block (b ∷ bs) =
    range_from (b * block) (min block (n - b * block)) ++ tiles_of_blocks n block bs

filter-expand-tiles :
    (n block : ℕ) (bs : List ℕ)
    → filter (λ x. dec_lt x n) (expand block bs) ≡ tiles_of_blocks n block bs
unfolding expand
filter-expand-tiles n block [] = refl
filter-expand-tiles n block (b ∷ bs) =
    filter-append (λ x. dec_lt x n) (range_from (b * block) block) (expand block bs)
    ∙ ap₂ ◌++◌ (filter-range_from n (b * block) block) (filter-expand-tiles n block bs)

module _ (t : Torch) (laws : IsTorch t) where
  open t use {Scalar, zero_scalar, argsort, row_sum}

  group-perm : (c : List Scalar) (block : ℕ) → 1 < block → Perm (group t c block) (range (length c))
  unfolding group
  group-perm c block h =
      let n = length c in
      let nb = (n + block - 1) / block in
      let pad = nb * block - n in
      let cc = if pad == 0 then c else c ++ replicate pad zero_scalar in
      let bcost = map row_sum (chunk block nb cc) in
      let size : length bcost ≡ nb =
        length-map row_sum (chunk block nb cc) ∙ length-chunk block nb cc in
      let sorted : Perm (argsort bcost) (range nb) = rw size at (laws.argsort_perm bcost) in
      rw (filter-expand n block nb (blocks_cover n block h)) at
        (Perm.filter (λ x. dec_lt x n) (expand-perm block sorted))

  pub grouped_lpt-perm :
      (c : List Scalar) (block : ℤ) → Perm (grouped_lpt t c block) (range (length c))
  unfolding grouped_lpt
  grouped_lpt-perm c (negsuc _) = laws.argsort_perm c
  grouped_lpt-perm c (pos block) = elim (Bool-cases (leb block 1 || leb (length c) block)) [
    | inl e ↦ rw e (laws.argsort_perm c)
    | inr e ↦ rw e (group-perm c block (ground arith))
  ]

module _ (t : Torch) where
  open t use {Scalar, zero_scalar, argsort, row_sum}

  -- the costs of the blocks of a batch, the last row filled up with zeros
  abbrev pub block_costs : List Scalar → ℕ → List Scalar
  block_costs c block =
      let nb = (length c + block - 1) / block in
      let pad = nb * block - length c in
      map row_sum (chunk block nb (c ++ replicate pad zero_scalar))

  padded :
      (c : List Scalar) (pad : ℕ)
      → (if pad == 0 then c else c ++ replicate pad zero_scalar) ≡ c ++ replicate pad zero_scalar
  padded c zero = sym (append-nil c)
  padded c (suc pad) = ground arith

  group-blocks :
      (c : List Scalar) (block : ℕ)
      → group t c block ≡ tiles_of_blocks (length c) block (argsort (block_costs c block))
  unfolding group
  group-blocks c block =
      let nb = (length c + block - 1) / block in
      filter-expand-tiles (length c) block _
      ∙ ap (λ cc. tiles_of_blocks (length c) block (argsort (map row_sum (chunk block nb cc))))
          (padded c (nb * block - length c))

  -- Above its guard, `grouped_lpt` issues the blocks of adjacent tiles in the order in which
  -- `argsort` puts their total costs; inside a block the tiles keep their order, and the padding
  -- of the last block is dropped.
  pub grouped_lpt-blocks :
      (c : List Scalar) (block : ℕ)
      → 1 < block
      → block < length c
      → grouped_lpt t c (pos block)
        ≡ tiles_of_blocks (length c) block (argsort (block_costs c block))
  unfolding grouped_lpt
  grouped_lpt-blocks c block h k =
      let e : (leb block 1 || leb (length c) block) ≡ false = ground arith in
      rw e (group-blocks c block)
