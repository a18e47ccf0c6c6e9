-- ===== src/Tests/TraceTests.antt =====
-- A trace of claims with two steps back.
use sched_pass.Prelude.{ℕ, ◌≤◌, ◌≡◌, refl, ◌↔◌, List, [], ◌∷◌}
use sched_pass.Trace.{inversion_stats, steps, step_between, total_from, greater}
use sched_pass.Trace.Inversions.{inversions, IsFifo, inversion_stats-IsFifo}

abbrev trace : List ℕ
trace = 4 ∷ 6 ∷ 5 ∷ 9 ∷ 3 ∷ []

counted : inversion_stats trace ≡ (2, 5, 6, 4)
unfolding inversion_stats steps step_between total_from greater
counted = refl

inversion_stats-IsFifo_example :
    ((inversion_stats trace).1 ≡ inversions trace)
    × ((inversion_stats trace).0 ≤ (inversion_stats trace).1)
    × (((inversion_stats trace).0 ≡ 0) ↔ IsFifo trace)
    × (((inversion_stats trace).1 ≡ 0) ↔ IsFifo trace)
    × (((inversion_stats trace).2 ≡ 0) ↔ IsFifo trace)
inversion_stats-IsFifo_example = inversion_stats-IsFifo trace
