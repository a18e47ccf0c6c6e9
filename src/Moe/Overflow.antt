-- ===== src/Moe/Overflow.antt =====
-- The mask of `moe_expert_cap`, by the ranks of the slots.
use mathlib.Core.List.{mem-cons_self, mem-cons_of_mem}
use sched_pass.Prelude.{
  ℕ, zero, suc, ◌+◌, ◌≤◌, ◌<◌, ◌≡◌, refl, ap, ap₂, ◌∙◌, inl, inr, Bool, true, false, List, [], ◌∷◌,
  map, length, ◌==◌, get_or, get_elem?-get_or, set, replicate, range, range_from, arith, Perm,
  Pairwise, Mem, Bool-cases, if◌then◌else◌, AllBelow, get_or-set, get_or-AllBelow, AllBelow-mem,
  get_or-replicate, AllBelow-perm, AllBelow-range_from, length-set, length-replicate,
}
use sched_pass.Prelude.Int.{ℤ, pos, sub_ℕ, leb_ℤ}
use sched_pass.Prelude.Result.{ok}
use sched_pass.Floats.{Floats}
use sched_pass.Moe.{over_from, assign, overflow_mask, group_starts}
use sched_pass.Moe.Rank.{count, rank, earlier, count-perm, count-earlier}
use sched_pass.Moe.Groups.{scatter_add-count, group_starts-count}

-- What the code relies on of `torch.argsort(es, stable=True)`: it orders the slots by expert, and
-- those of one expert by their position.
pub record IsStable (stable_argsort : List ℕ → List ℕ) : Type 0 where
  pub argsort_perm : (es : List ℕ) → Perm (stable_argsort es) (range (length es))
  pub argsort_stable : (es : List ℕ) → Pairwise (λ i j. earlier es i j ≡ true) (stable_argsort es)

-- Slot i is above the capacity of its expert.
abbrev pub over : ℤ → List ℕ → ℕ → Bool
over limit es i = leb_ℤ limit (pos (rank es i))

sub_ℕ-sum : (s r : ℕ) → sub_ℕ (s + r) s ≡ pos r
sub_ℕ-sum s r = ground arith

earlier_self : (es : List ℕ) (i : ℕ) → earlier es i i ≡ false
earlier_self es i = ground arith

earlier_asym : (es : List ℕ) (i j : ℕ) → earlier es i j ≡ true → earlier es j i ≡ false
earlier_asym es i j h = ground arith

module _ (limit : ℤ) (es starts : List ℕ) where
  -- the slots from o on, of which the head stands at position p of the whole order
  abbrev AtPlace : ℕ → List ℕ → Type 0
  AtPlace p os =
      (j : ℕ)
      → Mem j os
      → p + count (λ i. earlier es i j) os ≡ get_or starts (get_or es j 0) 0 + rank es j

  none_earlier :
      (j : ℕ) (os : List ℕ)
      → ((q : ℕ) → Mem q os → earlier es j q ≡ true)
      → count (λ i. earlier es i j) os ≡ 0
  none_earlier j [] h = refl
  none_earlier j (o ∷ os) h =
      let e = earlier_asym es j o (h o mem-cons_self) in
      rw e (omega (arith, none_earlier j os (λ q m. h q (mem-cons_of_mem o m))))

  over_from-rank :
      (p : ℕ) (os : List ℕ)
      → Pairwise (λ i j. earlier es i j ≡ true) os
      → AtPlace p os
      → over_from limit starts es p os ≡ map (over limit es) os
  unfolding over_from
  over_from-rank p [] s h = refl
  over_from-rank p (o ∷ os) (Pairwise.cons first s) h =
      let none_first = none_earlier o os first in
      let place : p ≡ get_or starts (get_or es o 0) 0 + rank es o =
        omega (arith, rw (earlier_self es o) at (h o mem-cons_self), none_first) in
      let rest =
        over_from-rank (suc p) os s
          (λ j m. omega (arith, rw (first j m) at (h j (mem-cons_of_mem o m)))) in
      let start = get_or starts (get_or es o 0) 0 in
      ap₂ ◌∷◌ (ap (leb_ℤ limit) (ap (λ x. sub_ℕ x start) place ∙ sub_ℕ-sum start (rank es o))) rest

assign-map :
    (g : ℕ → Bool) (overflow : List Bool) (order : List ℕ)
    → AllBelow (length overflow) order
    → (mask : List Bool) × (assign overflow order (map g order) ≡ ok mask)
      × (length mask ≡ length overflow)
      × ((j : ℕ)
          → j < length overflow
          → get_or mask j false
            ≡ (if count (λ o. o == j) order == 0 then get_or overflow j false else g j))
unfolding assign
assign-map g overflow [] a = (overflow, refl, refl, λ j h. refl)
assign-map g overflow (o ∷ order) a =
    let size = length-set overflow o (g o) in
    let (mask, e, same, at) = assign-map g (set overflow o (g o)) order (rw size a.1) in
    (
      mask,
      rw (get_elem?-get_or overflow o false a.0, assign) e,
      same ∙ size,
      λ j h.
          let stored = get_or-set overflow o (g o) j false a.0 in
          let later = at j (omega (arith, size)) in
          elim (Bool-cases (o == j)) [
            | inl e' ↦
                let key : g o ≡ g j = ap g (ground arith) in
                rw e' (ground (arith, later, rw e' at stored, key))
            | inr e' ↦ rw e' (ground (arith, later, rw e' at stored))
          ],
    )

count-range_from : (s n j : ℕ) → s ≤ j → j < s + n → 0 < count (λ o. o == j) (range_from s n)
count-range_from s zero j h k = absurd (omega arith)
count-range_from s (suc n) j h k = elim (Bool-cases (s == j)) [
  | inl e ↦ rw e (omega arith)
  | inr e ↦
      let rest = count-range_from (suc s) n j (ground arith) (omega arith) in
      rw e (omega (arith, rest))
]

module _ (f : Floats) (stable_argsort : List ℕ → List ℕ) (laws : IsStable stable_argsort) where
  -- With ids below the number of experts the mask is computed, and holds of exactly the slots
  -- above the capacity.
  pub overflow_mask-rank :
      (limit : ℤ) (es : List ℕ) (num_experts : ℕ)
      → AllBelow num_experts es
      → (mask : List Bool) × (overflow_mask f stable_argsort limit es (length es) num_experts
          ≡ ok mask)
        × (length mask ≡ length es)
        × ((j : ℕ) → j < length es → get_or mask j false ≡ over limit es j)
  unfolding overflow_mask
  overflow_mask-rank limit es num_experts a =
      let n = length es in
      let order = stable_argsort es in
      let perm = laws.argsort_perm es in
      let zeros : length (replicate num_experts 0) ≡ num_experts = length-replicate num_experts 0 in
      let (counts, e, size, total) = scatter_add-count (replicate num_experts 0) es (rw zeros a) in
      let experts : length counts ≡ num_experts = size ∙ zeros in
      let sums : (k : ℕ) → get_or counts k 0 ≡ count (λ x. x == k) es =
        λ k. omega (arith, total k, get_or-replicate {A = ℕ} num_experts 0 k) in
      let below = AllBelow-perm n perm (AllBelow-range_from n 0 n (omega arith)) in
      let place : AtPlace limit es (group_starts counts) 0 order = λ j m.
        let expert = get_or-AllBelow num_experts es j a (AllBelow-mem n below m) in
        let start =
          group_starts-count counts es (get_or es j 0) sums (omega (arith, expert, experts)) in
        omega (arith, count-perm (λ i. earlier es i j) perm, count-earlier es j, start) in
      let ranked =
        over_from-rank limit es (group_starts counts) 0 order (laws.argsort_stable es) place in
      let (mask, e', size', at) =
        assign-map (over limit es) (replicate n false) order
          (rw (length-replicate n false) below) in
      (
        mask,
        rw (e, ranked) e',
        size' ∙ length-replicate n false,
        λ j h.
            let hit : (count (λ o. o == j) order == 0) ≡ false = ground (
              arith,
              count-perm (λ o. o == j) perm,
              count-range_from 0 n j (omega arith) (omega arith),
            ) in
            rw hit at (at j (omega (arith, length-replicate n false))),
      )
