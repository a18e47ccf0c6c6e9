-- ===== src/Moe/Balanced.antt =====
-- `moe_expert_cap` on a routing in which no expert has more than C slots.
use sched_pass.Prelude.{
  ℕ, zero, suc, ◌+◌, ◌*◌, ◌<◌, ◌≡◌, refl, sym, ap, ap₂, ◌∙◌, Bool, true, false, some, List, [], ◌∷◌,
  length, ◌==◌, get_or, take, range, range_from, arith, if◌then◌else◌, AllBelow,
}
use sched_pass.Prelude.Int.{ℤ, pos, ltb_ℤ, leb_ℤ}
use sched_pass.Prelude.Result.{ok}
use sched_pass.Floats.{Floats}
use sched_pass.Moe.{Matrix, capacity, moe_expert_cap}
use sched_pass.Moe.Rank.{count}
use sched_pass.Moe.Overflow.{IsStable, over}
use sched_pass.Moe.Cap.{moe_expert_cap-over}

-- A slot comes before the end of its expert's slots.
rank_below :
    (es : List ℕ) (j e : ℕ)
    → j < length es
    → get_or es j 0 ≡ e
    → count (λ x. x == e) (take j es) < count (λ x. x == e) es
rank_below [] j e h k = absurd (omega arith)
rank_below (x ∷ es) zero e h k = ground arith
rank_below (x ∷ es) (suc j) e h k = omega (arith, rank_below es j e (omega arith) k)

count-none :
    (g : ℕ → Bool) (s n : ℕ) → ((i : ℕ) → i < s + n → g i ≡ false) → count g (range_from s n) ≡ 0
count-none g s zero h = refl
count-none g s (suc n) h =
    rw (h s (omega arith)) (omega (arith, count-none g (suc s) n (λ i k. h i (omega arith))))

items_eq {ℓ} :
    {A : Type ℓ} (d : A) (xs ys : List A)
    → length xs ≡ length ys
    → ((j : ℕ) → j < length xs → get_or xs j d ≡ get_or ys j d)
    → xs ≡ ys
items_eq d [] [] h k = refl
items_eq d [] (y ∷ ys) h k = absurd (omega arith)
items_eq d (x ∷ xs) [] h k = absurd (omega arith)
items_eq d (x ∷ xs) (y ∷ ys) h k =
    ap₂ ◌∷◌ (k 0 (omega arith)) (items_eq d xs ys (omega arith) (λ j l. k (suc j) (omega arith)))

module _ (f : Floats) (stable_argsort : List ℕ → List ℕ) where
  open f use {Float, zero_float}

  -- Where no expert has more than C slots, `moe_expert_cap` returns the weights as they are, and
  -- reports that it dropped none.
  pub moe_expert_cap-balanced :
      (laws : IsStable stable_argsort) (ids : Matrix ℕ) (weights : Matrix Float) (num_experts : ℕ)
      (factor : Float) (min_capacity limit : ℤ)
      → AllBelow num_experts ids.items
      → length weights.items ≡ length ids.items
      → length ids.items ≡ ids.rows * ids.cols
      → capacity f stable_argsort factor ids num_experts ≡ ok limit
      → ltb_ℤ limit min_capacity ≡ false
      → ((e : ℕ) → leb_ℤ (pos (count (λ x. x == e) ids.items)) limit ≡ true)
      → moe_expert_cap f stable_argsort ids weights num_experts factor true min_capacity
        ≡ ok (record { rows = ids.rows; cols = ids.cols; items = weights.items }, some 0)
  moe_expert_cap-balanced laws ids weights num_experts factor min_capacity limit a size shape e g
        balanced =
      let (capped, result, rows, cols, size', at) =
        moe_expert_cap-over f stable_argsort laws ids weights num_experts factor min_capacity limit
          a size shape e g in
      let none_over : (j : ℕ) → j < length ids.items → over limit ids.items j ≡ false = λ j h.
        let below = rank_below ids.items j (get_or ids.items j 0) h refl in
        let fits = balanced (get_or ids.items j 0) in ground arith in
      let same : capped.items ≡ weights.items =
        items_eq zero_float capped.items weights.items (size' ∙ sym size) (λ j h.
          let here : j < length ids.items = omega (arith, size') in
          at j here
          ∙ ap (λ b. if b then zero_float else get_or weights.items j zero_float)
              (none_over j here)) in
      let total : count (over limit ids.items) (range (length ids.items)) ≡ 0 =
        count-none (over limit ids.items) 0 (length ids.items) (λ i h. none_over i (omega arith)) in
      result ∙ λ i. ok (record { rows = rows i; cols = cols i; items = same i }, some (total i))
