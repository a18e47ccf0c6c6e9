-- ===== src/Trace.antt =====
-- experiments/clc/analyze_trace.py, `inversion_stats`: how far a trace of claims is from its order.
-- The tasks claimed are unsigned numbers.
pub mod Inversions
use sched_pass.Prelude.{ℕ, zero, suc, ◌+◌, ◌-◌, max, Bool, ltb, List, [], ◌∷◌, ◌++◌, if◌then◌else◌}

pub record Steps : Type 0 where
  pub adjacent : ℕ
  pub max_backstep : ℕ
  pub max_forward_step : ℕ

-- one turn of the first loop, on two neighbours
unfoldable pub step_between : ℕ → ℕ → Steps → Steps
step_between prior value s =
    if ltb value prior
    then record s { adjacent = suc s.adjacent; max_backstep = max s.max_backstep (prior - value) }
    else record s { max_forward_step = max s.max_forward_step (value - prior) }

unfoldable pub steps : List ℕ → Steps → Steps
steps [] s = s
steps (prior ∷ []) s = s
steps (prior ∷ value ∷ claimed) s = steps (value ∷ claimed) (step_between prior value s)

-- `sum(1 for prior in seen if prior > value)`
unfoldable pub greater : ℕ → List ℕ → ℕ
greater value [] = 0
greater value (prior ∷ seen) = (if ltb value prior then 1 else 0) + greater value seen

-- the second loop
unfoldable pub total_from : List ℕ → List ℕ → ℕ
total_from seen [] = 0
total_from seen (value ∷ claimed) = greater value seen + total_from (seen ++ value ∷ []) claimed

abbrev pub no_steps : Steps
no_steps = record { adjacent = 0; max_backstep = 0; max_forward_step = 0 }

-- adjacent, total, max_backstep, max_forward_step
unfoldable pub inversion_stats : List ℕ → ℕ × ℕ × ℕ × ℕ
inversion_stats claimed =
    let s = steps claimed no_steps in
    (s.adjacent, total_from [] claimed, s.max_backstep, s.max_forward_step)
