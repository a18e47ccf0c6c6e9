-- ===== src/Rt/Order.antt =====
-- python/sched_rt.py, `SchedPlane._grouped_lpt` and `SchedPlane.region_order`: the order in which
-- the tiles of a step are issued, from their predicted costs.
pub mod Grouped
pub mod Split
use sched_pass.Prelude.{
  ℕ, zero, suc, ◌+◌, ◌-◌, ◌*◌, ◌/◌, ◌||◌, Option, none, some, List, [], ◌∷◌, ◌++◌, map, reverse,
  filter, if◌then◌else◌, leb, ◌==◌, length, take, drop, replicate, range_from, dec_lt,
}
use sched_pass.Prelude.Int.{ℤ, pos, negsuc}
use sched_pass.Torch.{Torch}

-- `.reshape(nb, block)`: nb rows of block entries
pub chunk {ℓ} : {A : Type ℓ} → ℕ → ℕ → List A → List (List A)
chunk block zero xs = []
chunk block (suc nb) xs = take block xs ∷ chunk block nb (drop block xs)

-- `(border[:, None] * block + arange(block)[None, :]).flatten()`
expand : ℕ → List ℕ → List ℕ
expand block [] = []
expand block (b ∷ bs) = range_from (b * block) block ++ expand block bs

-- `pre[0::2] = values`
set_evens : List ℕ → List ℕ → List ℕ
set_evens (x ∷ y ∷ pre) (v ∷ vs) = v ∷ y ∷ set_evens pre vs
set_evens (x ∷ []) (v ∷ vs) = v ∷ []
set_evens pre _ = pre

-- `pre[1::2] = values`
set_odds : List ℕ → List ℕ → List ℕ
unfolding set_evens
set_odds [] vs = []
set_odds (x ∷ pre) vs = x ∷ set_evens pre vs

-- `lpt[lo:hi]`
slice : ℕ → ℕ → List ℕ → List ℕ
slice lo hi l = take (hi - lo) (drop lo l)

module _ (t : Torch) where
  open t use {Scalar, zero_scalar, argsort, row_sum, empty}

  -- the branch of `_grouped_lpt` below its guard
  pub group : List Scalar → ℕ → List ℕ
  unfolding chunk expand
  group c block =
      let n = length c in
      let nb = (n + block - 1) / block in
      let pad = nb * block - n in
      let cc = if pad == 0 then c else c ++ replicate pad zero_scalar in
      let bcost = map row_sum (chunk block nb cc) in
      filter (λ x. dec_lt x n) (expand block (argsort bcost))

  unfoldable pub grouped_lpt : List Scalar → ℤ → List ℕ
  unfolding group
  grouped_lpt c (negsuc _) = argsort c
  grouped_lpt c (pos block) =
      if leb block 1 || leb (length c) block then argsort c else group c block

  -- the branch of `region_order` for 0 < r < n
  pub split_region : List Scalar → ℕ → List ℕ
  unfolding set_evens set_odds slice
  split_region c r =
      let n = length c in
      let lpt = argsort c in
      let nh = (r + 1) / 2 in
      let nl = r - nh in
      let pre = set_evens (empty r) (take nh lpt) in
      let pre' = if nl == 0 then pre else set_odds pre (reverse (drop (n - nl) lpt)) in
      let suf = if nl == 0 then drop nh lpt else slice nh (n - nl) lpt in pre' ++ suf

  -- `env_block` is `int(os.environ.get("SCHED_LPT_BLOCK", "16"))`.
  unfoldable pub region_order : ℤ → List Scalar → ℤ → Option ℤ → List ℕ
  unfolding split_region grouped_lpt
  region_order env_block c (negsuc _) none = grouped_lpt c env_block
  region_order env_block c (negsuc _) (some block) = grouped_lpt c block
  region_order env_block c (pos r) block =
      let grouped = grouped_lpt c (elim block [ none ↦ env_block | some b ↦ b ]) in
      if r == 0 || leb (length c) r then grouped else split_region c r
