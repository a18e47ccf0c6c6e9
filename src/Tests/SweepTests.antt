-- ===== src/Tests/SweepTests.antt =====
-- Rows of the adversarial sweep, and a suite with a probe that answers as predicted.
use text.Mathlib.Text.{◌==◌ as text_eq}
use sched_pass.Prelude.{◌*◌, ◌≡◌, refl, ◌↔◌, List, [], ◌∷◌, length, if◌then◌else◌}
use sched_pass.Prelude.Result.{ok}
use sched_pass.Sweep.{
  Columns, Row, tuple, validate_tuple, run_suite, run_configs, run_repeats, run_row, failures_of,
  check_fields, tuple_config,
}
use sched_pass.Sweep.Failures.{AllRows, IsPredicted, suite_size, run_suite-IsPredicted}

-- ten tasks, of which four are resident
abbrev ten : Columns
ten field =
    if text_eq field "tasks"
    then 10
    else if text_eq field "predicted_r"
    then 4
    else if text_eq field "active_workers"
    then 4
    else if text_eq field "expected_active_workers"
    then 4
    else if text_eq field "expected_claimed"
    then 6
    else if text_eq field "unique_claimed"
    then 6
    else if text_eq field "claimed_min"
    then 4
    else if text_eq field "claimed_max"
    then 9
    else if text_eq field "w_bins"
    then 1
    else if text_eq field "structural_ok"
    then 1
    else 0

valid : validate_tuple (λ n. "n") ten ≡ []
unfolding validate_tuple check_fields
valid = refl

abbrev ten_row : Row
ten_row = record { columns = ten; suite = "tuple"; repeat = 0; errors = [] }

abbrev no_failures : List Row
no_failures = []

run_suite-IsPredicted_example :
    (length (ten_row ∷ ten_row ∷ ten_row ∷ []) ≡ 1 * suite_size tuple)
    × ((no_failures ≡ [])
        ↔ AllRows (λ row. IsPredicted tuple row.columns) (ten_row ∷ ten_row ∷ ten_row ∷ []))
unfolding run_suite run_configs run_repeats run_row failures_of validate_tuple check_fields
    tuple_config
run_suite-IsPredicted_example =
    run_suite-IsPredicted (λ n. "n") (λ config repeat. ok ten) tuple 1
      (ten_row ∷ ten_row ∷ ten_row ∷ []) no_failures refl
