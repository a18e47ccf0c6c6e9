-- ===== src/Moe/Cap.antt =====
-- `moe_expert_cap`: which weights it zeroes, and how many it reports.
use sched_pass.Prelude.{
  ℕ, zero, suc, ◌+◌, ◌*◌, ◌<◌, ◌≡◌, refl, ap, ap₂, ◌∙◌, inl, inr, Bool, true, false, some, List, [],
  ◌∷◌, length, ◌==◌, get_or, range, range_from, arith, Bool-cases, if◌then◌else◌, AllBelow,
}
use sched_pass.Prelude.Int.{ℤ, ltb_ℤ}
use sched_pass.Prelude.Result.{ok}
use sched_pass.Floats.{Floats}
use sched_pass.Moe.{
  Matrix, capacity, masked_fill, count_true, overflow_mask, reshape, drop_overflow, moe_expert_cap,
}
use sched_pass.Moe.Rank.{count}
use sched_pass.Moe.Overflow.{IsStable, over, overflow_mask-rank}

count_true-range :
    (g : ℕ → Bool) (s : ℕ) (mask : List Bool)
    → ((j : ℕ) → j < length mask → get_or mask j false ≡ g (s + j))
    → count_true mask ≡ count g (range_from s (length mask))
unfolding count_true
count_true-range g s [] h = refl
count_true-range g s (b ∷ mask) h =
    let first : b ≡ g s = h 0 (omega arith) ∙ ap g (omega arith) in
    ap₂ ◌+◌ (ap (λ x. if x then 1 else 0) first)
      (count_true-range g (suc s) mask (λ j k. h (suc j) (omega arith) ∙ ap g (omega arith)))

module _ (f : Floats) (stable_argsort : List ℕ → List ℕ) where
  open f use {Float, zero_float}

  masked_fill-length :
      (ws : List Float) (bs : List Bool) → length (masked_fill f stable_argsort ws bs) ≡ length ws
  unfolding masked_fill
  masked_fill-length [] bs = refl
  masked_fill-length (w ∷ ws) [] = refl
  masked_fill-length (w ∷ ws) (b ∷ bs) = ap suc (masked_fill-length ws bs)

  masked_fill-get_or :
      (ws : List Float) (bs : List Bool) (j : ℕ)
      → get_or (masked_fill f stable_argsort ws bs) j zero_float
        ≡ (if get_or bs j false then zero_float else get_or ws j zero_float)
  unfolding masked_fill
  masked_fill-get_or [] bs j = elim (Bool-cases (get_or bs j false)) [
    | inl e ↦ rw e refl
    | inr e ↦ rw e refl
  ]
  masked_fill-get_or (w ∷ ws) [] j = refl
  masked_fill-get_or (w ∷ ws) (b ∷ bs) zero = refl
  masked_fill-get_or (w ∷ ws) (b ∷ bs) (suc j) = masked_fill-get_or ws bs j

  moe_expert_cap_eq :
      (ids : Matrix ℕ) (weights : Matrix Float) (num_experts : ℕ) (factor : Float)
      (min_capacity limit : ℤ) {mask : List Bool}
      → capacity f stable_argsort factor ids num_experts ≡ ok limit
      → ltb_ℤ limit min_capacity ≡ false
      → overflow_mask f stable_argsort limit ids.items (length weights.items) num_experts ≡ ok mask
      → length (masked_fill f stable_argsort weights.items mask) ≡ ids.rows * ids.cols
      → moe_expert_cap f stable_argsort ids weights num_experts factor true min_capacity
        ≡ ok (
          record {
            rows = ids.rows;
            cols = ids.cols;
            items = masked_fill f stable_argsort weights.items mask;
          },
          some (count_true mask),
        )
  unfolding moe_expert_cap drop_overflow reshape
  moe_expert_cap_eq ids weights num_experts factor min_capacity limit {mask} e g e' shape =
      let fits : (length (masked_fill f stable_argsort weights.items mask) == ids.rows * ids.cols)
          ≡ true =
        ground arith in
      rw (e, g, e', fits) refl

  -- With expert ids below their number, as many weights as ids and as the shape says, and a
  -- capacity C that is not below the minimum, `moe_expert_cap` returns the weights in their shape,
  -- with 0 for exactly the slots that have at least C earlier slots of the same expert, and the
  -- number of those slots.
  pub moe_expert_cap-over :
      (laws : IsStable stable_argsort) (ids : Matrix ℕ) (weights : Matrix Float) (num_experts : ℕ)
      (factor : Float) (min_capacity limit : ℤ)
      → AllBelow num_experts ids.items
      → length weights.items ≡ length ids.items
      → length ids.items ≡ ids.rows * ids.cols
      → capacity f stable_argsort factor ids num_experts ≡ ok limit
      → ltb_ℤ limit min_capacity ≡ false
      → (capped : Matrix Float) × (moe_expert_cap f stable_argsort ids weights num_experts factor
            true min_capacity
          ≡ ok (capped, some (count (over limit ids.items) (range (length ids.items)))))
        × (capped.rows ≡ ids.rows)
        × (capped.cols ≡ ids.cols)
        × (length capped.items ≡ length ids.items)
        × ((j : ℕ)
            → j < length ids.items
            → get_or capped.items j zero_float
              ≡ (if over limit ids.items j then zero_float else get_or weights.items j zero_float))
  moe_expert_cap-over laws ids weights num_experts factor min_capacity limit a size shape e g =
      let (mask, e', size', at) =
        overflow_mask-rank f stable_argsort laws limit ids.items num_experts a in
      let filled = masked_fill-length weights.items mask in
      let computed : overflow_mask f stable_argsort limit ids.items (length weights.items)
            num_experts
          ≡ ok mask =
        ap (λ n. overflow_mask f stable_argsort limit ids.items n num_experts) size ∙ e' in
      let total : count_true mask ≡ count (over limit ids.items) (range (length ids.items)) =
        count_true-range (over limit ids.items) 0 mask
          (λ j k. at j (omega (arith, size')) ∙ ap (over limit ids.items) (omega arith))
        ∙ ap (λ n. count (over limit ids.items) (range n)) size' in
      let capped : Matrix Float = record {
        rows = ids.rows;
        cols = ids.cols;
        items = masked_fill f stable_argsort weights.items mask;
      } in
      (
        capped,
        moe_expert_cap_eq ids weights num_experts factor min_capacity limit e g computed
              (filled ∙ size ∙ shape)
            ∙ ap (λ n. ok (capped, some n)) total,
        refl,
        refl,
        filled ∙ size,
        λ j k.
            masked_fill-get_or weights.items mask j
            ∙ ap (λ b. if b then zero_float else get_or weights.items j zero_float) (at j k),
      )
