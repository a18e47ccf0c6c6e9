-- ===== src/Trace/Inversions.antt =====
-- What the statistics of a trace count.
use sched_pass.Prelude.{ℕ, ◌+◌, ◌≤◌, ◌≡◌, refl, ◌↔◌, ltb, List, [], ◌∷◌, ◌++◌, if◌then◌else◌, arith}
use sched_pass.Trace.{Steps, step_between, steps, greater, total_from, no_steps, inversion_stats}

-- how many of the later claims are below a value
unfoldable pub below : ℕ → List ℕ → ℕ
below value [] = 0
below value (later ∷ claimed) = (if ltb later value then 1 else 0) + below value claimed

-- The pairs of claims, the earlier one first, of which the later one is below the earlier one.
unfoldable pub inversions : List ℕ → ℕ
inversions [] = 0
inversions (value ∷ claimed) = below value claimed + inversions claimed

-- No claim is below the one before it.
abbrev pub IsFifo : List ℕ → Type 0
IsFifo [] = Unit
IsFifo (prior ∷ []) = Unit
IsFifo (prior ∷ value ∷ claimed) = (prior ≤ value) × IsFifo (value ∷ claimed)

-- pairs of a claim that was seen and a later one
cross : List ℕ → List ℕ → ℕ
cross [] claimed = 0
cross (prior ∷ seen) claimed = below prior claimed + cross seen claimed

cross-append :
    (seen : List ℕ) (value : ℕ) (claimed : List ℕ)
    → cross (seen ++ value ∷ []) claimed ≡ cross seen claimed + below value claimed
unfolding cross
cross-append [] value claimed = omega arith
cross-append (prior ∷ seen) value claimed = omega (arith, cross-append seen value claimed)

cross-cons :
    (seen : List ℕ) (value : ℕ) (claimed : List ℕ)
    → cross seen (value ∷ claimed) ≡ greater value seen + cross seen claimed
unfolding cross greater below
cross-cons [] value claimed = omega arith
cross-cons (prior ∷ seen) value claimed = omega (arith, cross-cons seen value claimed)

cross-nil : (seen : List ℕ) → cross seen [] ≡ 0
unfolding cross below
cross-nil [] = refl
cross-nil (prior ∷ seen) = omega (arith, cross-nil seen)

total_from-cross :
    (seen claimed : List ℕ) → total_from seen claimed ≡ cross seen claimed + inversions claimed
unfolding total_from inversions
total_from-cross seen [] = omega (arith, cross-nil seen)
total_from-cross seen (value ∷ claimed) = omega (
  arith,
  total_from-cross (seen ++ value ∷ []) claimed,
  cross-append seen value claimed,
  cross-cons seen value claimed,
)

-- a step back, and how the two counters see it
step_between-adjacent :
    (prior value : ℕ) (s : Steps)
    → (step_between prior value s).adjacent ≡ s.adjacent + (if ltb value prior then 1 else 0)
unfolding step_between
step_between-adjacent prior value s = ground arith

step_between-back :
    (prior value : ℕ) (s : Steps)
    → ((step_between prior value s).max_backstep ≡ 0) ↔ ((s.max_backstep ≡ 0) × (prior ≤ value))
unfolding step_between
step_between-back prior value s = ground arith

steps-adjacent :
    (claimed : List ℕ) (s : Steps) → (steps claimed s).adjacent ≤ s.adjacent + inversions claimed
unfolding steps inversions below
steps-adjacent [] s = omega arith
steps-adjacent (prior ∷ []) s = omega arith
steps-adjacent (prior ∷ value ∷ claimed) s = omega (
  arith,
  steps-adjacent (value ∷ claimed) (step_between prior value s),
  step_between-adjacent prior value s,
)

steps-IsFifo :
    (claimed : List ℕ) (s : Steps)
    → ((steps claimed s).adjacent ≡ 0) ↔ ((s.adjacent ≡ 0) × IsFifo claimed)
unfolding steps
steps-IsFifo [] s = (λ h. (h, tt), λ h. h.0)
steps-IsFifo (prior ∷ []) s = (λ h. (h, tt), λ h. h.0)
steps-IsFifo (prior ∷ value ∷ claimed) s =
    let rest = steps-IsFifo (value ∷ claimed) (step_between prior value s) in
    let one = step_between-adjacent prior value s in
    (
      λ h.
          let (now, later) = rest.0 h in
          (omega (arith, now, one), (ground (arith, now, one), later)),
      λ h. let (now, (up, later)) = h in rest.1 (ground (arith, now, one, up), later),
    )

steps-back :
    (claimed : List ℕ) (s : Steps)
    → ((steps claimed s).max_backstep ≡ 0) ↔ ((s.max_backstep ≡ 0) × IsFifo claimed)
unfolding steps
steps-back [] s = (λ h. (h, tt), λ h. h.0)
steps-back (prior ∷ []) s = (λ h. (h, tt), λ h. h.0)
steps-back (prior ∷ value ∷ claimed) s =
    let rest = steps-back (value ∷ claimed) (step_between prior value s) in
    let one = step_between-back prior value s in
    (
      λ h. let (now, later) = rest.0 h in let (a, b) = one.0 now in (a, (b, later)),
      λ h. let (now, (up, later)) = h in rest.1 (one.1 (now, up), later),
    )

below-IsFifo :
    (bound value : ℕ) (claimed : List ℕ)
    → bound ≤ value
    → IsFifo (value ∷ claimed)
    → below bound (value ∷ claimed) ≡ 0
unfolding below
below-IsFifo bound value [] h fifo = ground arith
below-IsFifo bound value (next ∷ claimed) h fifo =
    let rest = below-IsFifo bound next claimed (omega (arith, h, fifo.0)) fifo.1 in
    ground (arith, rest, h)

inversions-IsFifo : (claimed : List ℕ) → IsFifo claimed → inversions claimed ≡ 0
unfolding inversions below
inversions-IsFifo [] fifo = refl
inversions-IsFifo (prior ∷ []) fifo = omega arith
inversions-IsFifo (prior ∷ value ∷ claimed) fifo = omega (
  arith,
  below-IsFifo prior value claimed fifo.0 fifo.1,
  inversions-IsFifo (value ∷ claimed) fifo.1,
)

-- Of any trace `inversion_stats` counts in total the pairs of claims that are out of order, and among
-- neighbours no more than those. The adjacent inversions, the total and the longest step back are each
-- zero exactly if no claim is below the one before it.
pub inversion_stats-IsFifo :
    (claimed : List ℕ)
    → ((inversion_stats claimed).1 ≡ inversions claimed)
      × ((inversion_stats claimed).0 ≤ (inversion_stats claimed).1)
      × (((inversion_stats claimed).0 ≡ 0) ↔ IsFifo claimed)
      × (((inversion_stats claimed).1 ≡ 0) ↔ IsFifo claimed)
      × (((inversion_stats claimed).2 ≡ 0) ↔ IsFifo claimed)
unfolding inversion_stats cross
inversion_stats-IsFifo claimed =
    let total = total_from-cross [] claimed in
    let adjacent = steps-adjacent claimed no_steps in
    let fifo = steps-IsFifo claimed no_steps in
    let back = steps-back claimed no_steps in
    (
      omega (arith, total),
      omega (arith, total, adjacent),
      (λ h. (fifo.0 h).1, λ h. fifo.1 (refl, h)),
      (
        λ h. (fifo.0 (omega (arith, total, adjacent, h))).1,
        λ h. omega (arith, total, inversions-IsFifo claimed h),
      ),
      (λ h. (back.0 h).1, λ h. back.1 (refl, h)),
    )
