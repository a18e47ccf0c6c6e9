-- ===== src/Tests/MoeTests.antt =====
-- Two experts, three tokens with two slots each: the fourth slot of expert 0 is dropped.
use sched_pass.Moe.Register.{Forward, original, capping, Layer, register_moe_cap}
use mathlib.Core.List.{Memᴰ, Nodup}
use mathlib.Core.List.Memᴰ
use mathlib.Core.List.Perm
use mathlib.Core.List.Pairwise
use mathlib.Core.Logic.{∥∥₁_elim}
use native.Mathlib.Bridge.{le_prop}
use sched_pass.Prelude.{
  ℕ, zero, suc, ◌<◌, ◌≢◌, ◌≡◌, refl, true, false, some, List, [], ◌∷◌, length, get_or, range,
  range_from, arith, Pairwise, if◌then◌else◌,
}
use sched_pass.Prelude.Int.{pos, ◌*ℤ◌}
use sched_pass.Prelude.Result.{ok}
use sched_pass.Sort.{sorted_by, insert_by}
use sched_pass.Sort.Laws.{IsWeakOrder, sorted_by-perm, sorted_by-IsSorted}
use sched_pass.Tests.Instances.{whole_floats}
use sched_pass.Moe.{
  Matrix, scatter_add, cumsum, group_starts, over_from, assign, count_true, masked_fill, reshape,
  capacity, overflow_mask, drop_overflow, moe_expert_cap,
}
use sched_pass.Moe.Rank.{count, earlier}
use sched_pass.Moe.Overflow.{IsStable, over}
use sched_pass.Moe.Cap.{moe_expert_cap-over}
use sched_pass.Moe.Balanced.{moe_expert_cap-balanced}
use sched_pass.Prelude.{◌==◌}
use sched_pass.Prelude.Int.{leb_ℤ}

abbrev stable : List ℕ → List ℕ
stable es = sorted_by (earlier es) (range (length es))

earlier-IsWeakOrder : (es : List ℕ) → IsWeakOrder (earlier es)
earlier-IsWeakOrder es = record { asym = λ i j h. ground arith; trans = λ i j k h h'. ground arith }

behind : (s n : ℕ) {x : ℕ} → Memᴰ x (range_from (suc s) n) → s < x
behind s zero m = absurd (Memᴰ.not-nil m)
behind s (suc n) (Memᴰ.head e) = omega arith
behind s (suc n) (Memᴰ.tail m) = let low = behind (suc s) n m in omega arith

earlier_total : (es : List ℕ) (i j : ℕ) → earlier es j i ≡ false → i ≢ j → earlier es i j ≡ true
earlier_total es i j h k = ground arith

range-Nodup : (s n : ℕ) → Nodup (range_from s n)
range-Nodup s zero = Pairwise.nil
range-Nodup s (suc n) =
    Pairwise.cons
      (λ x m e. let low : s < x = ∥∥₁_elim m le_prop (behind s n) in absurd (omega arith))
      (range-Nodup (suc s) n)

stable-IsStable : IsStable stable
stable-IsStable = record {
  argsort_perm = λ es. sorted_by-perm (earlier es) (range (length es));
  argsort_stable = λ es.
      Pairwise.imp (λ i j k. earlier_total es i j k.0 k.1)
        (Pairwise.and (sorted_by-IsSorted (earlier es) (earlier-IsWeakOrder es) (range (length es)))
          (Perm.nodup (Perm.symm (sorted_by-perm (earlier es) (range (length es))))
            (range-Nodup 0 (length es))));
}

abbrev routing : Matrix ℕ
routing = record { rows = 3; cols = 2; items = 0 ∷ 1 ∷ 0 ∷ 1 ∷ 0 ∷ 0 ∷ [] }

abbrev routed : Matrix whole_floats.Float
routed = record { rows = 3; cols = 2; items = pos 5 ∷ pos 6 ∷ pos 7 ∷ pos 8 ∷ pos 9 ∷ pos 4 ∷ [] }

routing_limit : capacity whole_floats stable (pos 1) routing 2 ≡ ok (pos 3)
unfolding capacity ◌*ℤ◌
routing_limit = refl

capped_run :
    moe_expert_cap whole_floats stable routing routed 2 (pos 1) true (pos 1)
    ≡ ok (
      record { rows = 3; cols = 2; items = pos 5 ∷ pos 6 ∷ pos 7 ∷ pos 8 ∷ pos 9 ∷ pos 0 ∷ [] },
      some 1,
    )
unfolding moe_expert_cap capacity drop_overflow overflow_mask reshape masked_fill count_true assign
    over_from group_starts cumsum scatter_add sorted_by insert_by ◌*ℤ◌
capped_run = refl

moe_expert_cap-over_example :
    (capped : Matrix whole_floats.Float) × (moe_expert_cap whole_floats stable routing routed 2
        (pos 1)
        true
        (pos 1)
      ≡ ok (capped, some (count (over (pos 3) routing.items) (range 6))))
    × (capped.rows ≡ 3)
    × (capped.cols ≡ 2)
    × (length capped.items ≡ 6)
    × ((j : ℕ)
        → j < 6
        → get_or capped.items j (pos 0)
          ≡ (if over (pos 3) routing.items j then pos 0 else get_or routed.items j (pos 0)))
moe_expert_cap-over_example =
    moe_expert_cap-over whole_floats stable stable-IsStable routing routed 2 (pos 1) (pos 1) (pos 3)
      (omega arith, (omega arith, (omega arith, (omega arith, (omega arith, (omega arith, tt))))))
      refl refl routing_limit refl

abbrev even : Matrix ℕ
even = record { rows = 2; cols = 2; items = 0 ∷ 1 ∷ 1 ∷ 0 ∷ [] }

abbrev even_weights : Matrix whole_floats.Float
even_weights = record { rows = 2; cols = 2; items = pos 5 ∷ pos 6 ∷ pos 7 ∷ pos 8 ∷ [] }

even_limit : capacity whole_floats stable (pos 1) even 2 ≡ ok (pos 2)
unfolding capacity ◌*ℤ◌
even_limit = refl

even_counts : (e : ℕ) → leb_ℤ (pos (count (λ x. x == e) even.items)) (pos 2) ≡ true
even_counts zero = refl
even_counts (suc zero) = refl
even_counts (suc (suc e)) = ground arith

moe_expert_cap-balanced_example :
    moe_expert_cap whole_floats stable even even_weights 2 (pos 1) true (pos 1)
    ≡ ok (even_weights, some 0)
moe_expert_cap-balanced_example =
    moe_expert_cap-balanced whole_floats stable stable-IsStable even even_weights 2 (pos 1) (pos 1)
      (pos 2) (omega arith, (omega arith, (omega arith, (omega arith, tt)))) refl refl even_limit
      refl even_counts

-- how many wrappers a call goes through
abbrev depth : Forward → ℕ
depth original = 0
depth (capping _ f) = suc (depth f)

abbrev unwrapped : Layer
unwrapped = record { forward = original; saved = []; made = 0 }

-- The test looks for the wrapper among the functions that were wrapped, so a second call wraps again.
twice :
    depth (register_moe_cap true true true (register_moe_cap true true true unwrapped).1).1.forward
    ≡ 2
unfolding register_moe_cap
twice = refl
