-- ===== src/Moe.antt =====
-- python/sched_moe_hook.py: `moe_expert_cap`, which zeroes the routing weights above an expert's
-- capacity, and `_observe`, which counts them. Expert ids are not negative.
pub mod Rank
pub mod Groups
pub mod Overflow
pub mod Cap
pub mod Balanced
pub mod Register
use sched_pass.Prelude.{
  ℕ, suc, ◌+◌, ◌-◌, ◌*◌, Bool, true, false, Option, none, some, List, [], ◌∷◌, map, if◌then◌else◌,
  ◌==◌, length, get_elem?, get_or, set, take, replicate,
}
use sched_pass.Prelude.Int.{ℤ, sub_ℕ, ltb_ℤ, leb_ℤ}
use sched_pass.Prelude.Result.{Result, ok, err, zero_division, runtime_error, index_error, ◌>>=◌}
use sched_pass.Floats.{Floats}

-- A two-dimensional tensor, with its items row by row.
pub record Matrix {ℓ} (A : Type ℓ) : Type ℓ where
  pub rows : ℕ
  pub cols : ℕ
  pub items : List A

-- `counts.scatter_add_(0, es, ones)`
unfoldable pub scatter_add : List ℕ → List ℕ → Result (List ℕ)
scatter_add counts [] = ok counts
scatter_add counts (e ∷ es) = elim (get_elem? counts e) [
  | none ↦ err runtime_error
  | some c ↦ scatter_add (set counts e (c + 1)) es
]

-- `torch.cumsum(xs, 0)`, after s
unfoldable pub cumsum : ℕ → List ℕ → List ℕ
cumsum s [] = []
cumsum s (x ∷ xs) = (s + x) ∷ cumsum (s + x) xs

-- `grp_start[1:] = torch.cumsum(counts, 0)[:-1]`, on zeros
unfoldable pub group_starts : List ℕ → List ℕ
unfolding cumsum
group_starts [] = []
group_starts (c ∷ counts) = 0 ∷ take (length counts) (cumsum 0 (c ∷ counts))

-- `torch.arange(n) - grp_start[sorted_e] >= C`, from position p on
unfoldable pub over_from : ℤ → List ℕ → List ℕ → ℕ → List ℕ → List Bool
over_from limit starts flat_e p [] = []
over_from limit starts flat_e p (o ∷ order) =
    leb_ℤ limit (sub_ℕ p (get_or starts (get_or flat_e o 0) 0))
    ∷ over_from limit starts flat_e (suc p) order

-- `overflow[order] = mask`
unfoldable pub assign : List Bool → List ℕ → List Bool → Result (List Bool)
assign overflow (o ∷ order) (b ∷ mask) = elim (get_elem? overflow o) [
  | none ↦ err index_error
  | some _ ↦ assign (set overflow o b) order mask
]
assign overflow _ _ = ok overflow

unfoldable pub count_true : List Bool → ℕ
count_true [] = 0
count_true (b ∷ bs) = (if b then 1 else 0) + count_true bs

module _ (f : Floats) (stable_argsort : List ℕ → List ℕ) where
  open f use {Float, zero_float, of_int, to_int, fmul, fdiv}

  -- `C`
  unfoldable pub capacity : Float → Matrix ℕ → ℕ → Result ℤ
  capacity factor ids num_experts =
      if num_experts == 0
      then err zero_division
      else ok (to_int (fdiv (fmul factor (of_int (ids.rows * ids.cols))) (of_int num_experts)))

  unfoldable pub masked_fill : List Float → List Bool → List Float
  masked_fill (w ∷ ws) (b ∷ bs) = (if b then zero_float else w) ∷ masked_fill ws bs
  masked_fill ws _ = ws

  -- `overflow`, for the capacity C
  unfoldable pub overflow_mask : ℤ → List ℕ → ℕ → ℕ → Result (List Bool)
  unfolding scatter_add group_starts over_from assign
  overflow_mask limit flat_e weights num_experts = do
    counts ← scatter_add (replicate num_experts 0) flat_e
    assign (replicate weights false) (stable_argsort flat_e)
        (over_from limit (group_starts counts) flat_e 0 (stable_argsort flat_e))

  -- `flat_w.reshape(nt, k)`
  unfoldable pub reshape : ℕ → ℕ → List Float → Result (Matrix Float)
  reshape rows cols items =
      if length items == rows * cols
      then ok (record { rows = rows; cols = cols; items = items })
      else err runtime_error

  -- from `flat_e` on
  unfoldable pub drop_overflow :
      ℤ → Matrix ℕ → Matrix Float → ℕ → Bool → Result (Matrix Float × Option ℕ)
  unfolding overflow_mask masked_fill count_true reshape
  drop_overflow limit ids weights num_experts count = do
    overflow ← overflow_mask limit ids.items (length weights.items) num_experts
    capped ← reshape ids.rows ids.cols (masked_fill weights.items overflow)
    ok (capped, if count then some (count_true overflow) else none)

  unfoldable pub moe_expert_cap :
      Matrix ℕ → Matrix Float → ℕ → Float → Bool → ℤ → Result (Matrix Float × Option ℕ)
  unfolding capacity drop_overflow
  moe_expert_cap ids weights num_experts factor count min_capacity = do
    limit ← capacity factor ids num_experts
    let rest = drop_overflow limit ids weights num_experts count
    if ltb_ℤ limit min_capacity then ok (weights, if count then some 0 else none) else rest

-- `_STATS`
pub record Stats : Type 0 where
  pub calls : ℕ
  pub capped_calls : ℕ
  pub dropped : ℕ
  pub routed : ℕ

-- `_observe`, less the line that it prints: d is the sum of the mask.
pub observe : ℕ → ℕ → Stats → Stats
observe numel d stats =
    let seen = record stats { calls = stats.calls + 1; routed = stats.routed + numel } in
    if d == 0
    then seen
    else record seen { capped_calls = seen.capped_calls + 1; dropped = seen.dropped + d }
