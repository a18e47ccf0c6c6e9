-- ===== src/Sweep.antt =====
-- experiments/clc/run_adversarial_sweep.py: the validation of the probes' rows, and a suite's run.
-- A probe's columns are unsigned numbers; the probes themselves are a parameter.
pub mod Checks
pub mod Predicted
pub mod Failures
use Prim.Native.String.{String, ◌++◌ as cat}
use sched_pass.Prelude.{
  ℕ, zero, suc, ◌-◌, min, Bool, true, false, not, ◌&&◌, ◌||◌, ◌==◌, leb, List, [], ◌∷◌, ◌++◌,
  if◌then◌else◌, range,
}
use sched_pass.Prelude.Result.{Result, ok, err, ◌>>=◌}

-- what `parse_probe_csv` makes of the probe's line
abbrev pub Columns : Type 0
Columns = String → ℕ

-- a row as it is kept, with the errors that its validation found
pub record Row : Type 0 where
  pub columns : Columns
  pub suite : String
  pub repeat : ℕ
  pub errors : List String

-- a configuration: its suite, and its arguments by name
pub record Config : Type 0 where
  pub suite : String
  pub arguments : List (String × ℕ)

unfoldable pub tuple_config : ℕ × ℕ × ℕ → Config
tuple_config (grid_x, grid_y, grid_z) = record {
  suite = "tuple";
  arguments =
      ("grid_x", grid_x)
      ∷ ("grid_y", grid_y)
      ∷ ("grid_z", grid_z)
      ∷ ("threads", 128)
      ∷ ("work_cycles", 4096)
      ∷ [];
}

abbrev pub tuple_configs : List Config
tuple_configs =
    tuple_config (64, 16, 8) ∷ tuple_config (16, 16, 32) ∷ tuple_config (17, 19, 29) ∷ []

unfoldable pub part_config : ℕ → Config
part_config stride = record {
  suite = "participation";
  arguments =
      ("tasks", 8192) ∷ ("threads", 128) ∷ ("claim_stride", stride) ∷ ("work_cycles", 4096) ∷ [];
}

abbrev pub part_configs : List Config
part_configs = part_config 1 ∷ part_config 2 ∷ part_config 4 ∷ part_config 8 ∷ part_config 16 ∷ []

-- `if test: errors.append(error)`, before the errors that follow
abbrev pub error_if : Bool → String → List String
error_if test error = if test then error ∷ [] else []

-- The tests of `claimed_max` against `tasks - 1` stand as `claimed_max + 1` against `tasks`, since the
-- difference is negative without tasks.
module _ (str : ℕ → String) (row : Columns) where
  -- the loop over `checks`
  unfoldable pub check_fields : List (String × ℕ) → List String
  check_fields [] = []
  check_fields ((field, expected) ∷ checks) =
      error_if (not (row field == expected))
        (cat field (cat "=" (cat (str (row field)) (cat " expected=" (str expected)))))
      ++ check_fields checks

  -- the checks of a tuple row
  abbrev pub tuple_checks : List (String × ℕ)
  tuple_checks =
      let active = min (row "tasks") (row "predicted_r") in
      let claimed = row "tasks" - row "predicted_r" in
      ("missed", 0)
      ∷ ("duplicates", 0)
      ∷ ("duplicate_claims", 0)
      ∷ ("claim_range_holes", 0)
      ∷ ("active_workers", active)
      ∷ ("expected_active_workers", active)
      ∷ ("expected_claimed", claimed)
      ∷ ("w_min", 0)
      ∷ ("w_max", 0)
      ∷ ("w_nonzero", 0)
      ∷ ("w_bins", 1)
      ∷ ("structural_ok", 1)
      ∷ []

  unfoldable pub validate_tuple : List String
  validate_tuple =
      check_fields tuple_checks
      ++ (if leb (row "tasks") (row "predicted_r")
          then error_if (not (row "successes" == 0) || not (row "unique_claimed" == 0))
              "unexpected claim below/equal R"
          else error_if (not (row "unique_claimed" == row "tasks" - row "predicted_r"))
              "unique_claimed mismatch"
            ++ error_if (not (row "claimed_min" == row "predicted_r")) "claimed_min mismatch"
            ++ error_if (not (suc (row "claimed_max") == row "tasks")) "claimed_max mismatch")

  -- the loop over the fields that are to be 0
  unfoldable pub zero_fields : List String → List String
  zero_fields [] = []
  zero_fields (field ∷ fields) =
      error_if (not (row field == 0)) (cat field (cat "=" (str (row field)))) ++ zero_fields fields

  unfoldable pub validate_part : List String
  validate_part =
      error_if (not (row "processed" == row "tasks")) "processed != tasks"
      ++ zero_fields ("missed" ∷ "duplicates" ∷ "duplicate_claims" ∷ [])
      ++ error_if (not (row "exactly_once" == 1)) "exactly_once=0"
      ++ (if row "claim_stride" == 1
          then error_if (not (row "active_workers" == row "predicted_r"))
              "stride=1 active_workers mismatch"
            ++ error_if (not (row "claimed_min" == row "predicted_r"))
                "stride=1 claimed_min mismatch"
            ++ error_if (not (suc (row "claimed_max") == row "tasks"))
                "stride=1 claimed_max mismatch"
            ++ error_if (not (row "claim_range_holes" == 0)) "stride=1 holes"
          else error_if (row "claim_range_holes" == 0)
              "partial participation did not create sparse claims"
            ++ error_if (leb (row "active_workers") (row "predicted_r"))
                "partial participation did not launch extra workers")

-- `runner` is the probe, at a configuration and a repeat; what it raises ends the suite.
module _ (runner : Config → ℕ → Result Columns) (validator : Columns → List String) where
  -- one turn of the inner loop
  unfoldable pub run_row : Config → ℕ → Result Row
  run_row config repeat = runner config repeat >>= λ columns. ok (record {
    columns = columns;
    suite = config.suite;
    repeat = repeat;
    errors = validator columns;
  })

  unfoldable pub run_repeats : Config → List ℕ → Result (List Row)
  run_repeats config [] = ok []
  run_repeats config (repeat ∷ repeats) =
      let rest = run_repeats config repeats in
      run_row config repeat >>= λ row. rest >>= λ rows. ok (row ∷ rows)

  unfoldable pub run_configs : ℕ → List Config → Result (List Row)
  run_configs repeats [] = ok []
  run_configs repeats (config ∷ configs) =
      let rest = run_configs repeats configs in
      run_repeats config (range repeats) >>= λ first. rest >>= λ rows. ok (first ++ rows)

-- `if errors: failures.append(row)`
unfoldable pub failures_of : List Row → List Row
failures_of [] = []
failures_of (row ∷ rows) =
    let rest = failures_of rows in elim row.errors [ [] ↦ rest | _ ∷ _ ↦ row ∷ rest ]

pub data Suite : Type 0 where
  tuple participation : Suite

-- The rows of a suite, and the failures that it returns.
unfoldable pub run_suite :
    (ℕ → String) → (Config → ℕ → Result Columns) → Suite → ℕ → Result (List Row × List Row)
run_suite str runner tuple repeats =
    run_configs runner (validate_tuple str) repeats tuple_configs >>= λ rows.
    ok (rows, failures_of rows)
run_suite str runner participation repeats =
    run_configs runner (validate_part str) repeats part_configs >>= λ rows.
    ok (rows, failures_of rows)

-- the row's `validation`
unfoldable pub joined : List String → String
joined [] = ""
joined (error ∷ []) = error
joined (error ∷ errors) = cat error (cat ";" (joined errors))

unfoldable pub validation : Row → String
validation row = elim row.errors [ [] ↦ "ok" | error ∷ errors ↦ joined (error ∷ errors) ]
