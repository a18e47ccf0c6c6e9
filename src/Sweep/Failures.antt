-- ===== src/Sweep/Failures.antt =====
-- The rows of a suite, and the failures that it returns.
use Prim.Native.String.{String}
use sched_pass.Prelude.{
  ℕ, suc, ◌+◌, ◌*◌, ◌≡◌, refl, sym, ◌∙◌, ap, subst, ◌↔◌, ◌⊎◌, inl, inr, List, [], ◌∷◌, ◌++◌, range,
  length, length-append, length-range_from, arith,
}
use sched_pass.Prelude.Result.{Result, ok, err, ◌>>=◌}
use sched_pass.Sweep.{
  Columns, Row, Config, validate_tuple, validate_part, run_row, run_repeats, run_configs,
  failures_of, Suite, tuple, participation, run_suite, tuple_configs, part_configs,
}
use sched_pass.Sweep.Predicted.{
  TupleIsPredicted, PartIsPredicted, validate_tuple-nil, validate_part-nil,
}

abbrev pub AllRows : (Row → Type 0) → List Row → Type 0
AllRows P [] = Unit
AllRows P (row ∷ rows) = P row × AllRows P rows

AllRows-append :
    (P : Row → Type 0) (xs ys : List Row) → AllRows P xs → AllRows P ys → AllRows P (xs ++ ys)
AllRows-append P [] ys h k = k
AllRows-append P (x ∷ xs) ys h k = (h.0, AllRows-append P xs ys h.1 k)

-- What holds of the value, where the computation returns.
abbrev Gives : {A : Type 0} → (A → Type 0) → Result A → Type 0
Gives P (ok a) = P a
Gives P (err _) = Unit

bind-Gives :
    {A B : Type 0} (P : A → Type 0) (Q : B → Type 0) (m : Result A) (k : A → Result B)
    → Gives P m
    → ((a : A) → P a → Gives Q (k a))
    → Gives Q (m >>= k)
bind-Gives P Q (ok a) k h later = later a h
bind-Gives P Q (err e) k h later = tt

mul_suc : (m n : ℕ) → m * suc n ≡ m + m * n
mul_suc m n = omega arith

trivial : {A : Type 0} (r : Result A) → Gives (λ _. Unit) r
trivial (ok a) = tt
trivial (err e) = tt

module _ (runner : Config → ℕ → Result Columns) (validator : Columns → List String) where
  -- a row whose errors are the validator's
  IsValidated : Row → Type 0
  IsValidated row = row.errors ≡ validator row.columns

  abbrev Counted : ℕ → List Row → Type 0
  Counted n rows = (length rows ≡ n) × AllRows IsValidated rows

  run_row-Gives :
      (config : Config) (repeat : ℕ) → Gives IsValidated (run_row runner validator config repeat)
  unfolding run_row IsValidated
  run_row-Gives config repeat =
      bind-Gives (λ _. Unit) IsValidated (runner config repeat) _ (trivial (runner config repeat))
        (λ columns _. refl)

  run_repeats-Gives :
      (config : Config) (repeats : List ℕ)
      → Gives (Counted (length repeats)) (run_repeats runner validator config repeats)
  unfolding run_repeats
  run_repeats-Gives config [] = (refl, tt)
  run_repeats-Gives config (repeat ∷ repeats) =
      bind-Gives IsValidated (Counted _) (run_row runner validator config repeat) _
        (run_row-Gives config repeat)
        (λ row h.
          bind-Gives (Counted (length repeats)) (Counted _)
            (run_repeats runner validator config repeats) _ (run_repeats-Gives config repeats)
            (λ rows k. (ap suc k.0, (h, k.1))))

  run_configs-Gives :
      (repeats : ℕ) (configs : List Config)
      → Gives (Counted (repeats * length configs)) (run_configs runner validator repeats configs)
  unfolding run_configs
  run_configs-Gives repeats [] = (omega arith, tt)
  run_configs-Gives repeats (config ∷ configs) =
      bind-Gives (Counted (length (range repeats))) (Counted _)
        (run_repeats runner validator config (range repeats)) _
        (run_repeats-Gives config (range repeats))
        (λ first h.
          bind-Gives (Counted (repeats * length configs)) (Counted _)
            (run_configs runner validator repeats configs) _ (run_configs-Gives repeats configs)
            (λ rows k. (
              omega (
                arith,
                length-append first rows,
                h.0,
                k.0,
                length-range_from 0 repeats,
                mul_suc repeats (length configs),
              ),
              AllRows-append IsValidated first rows h.1 k.1,
            )))

  List-cases :
      (errors : List String)
      → (errors ≡ []) ⊎ ((e : String) × (es : List String) × (errors ≡ e ∷ es))
  List-cases [] = inl refl
  List-cases (e ∷ es) = inr (e, es, refl)

  module _ (P : Columns → Type 0) (valid : (c : Columns) → (validator c ≡ []) ↔ P c) where
    failures_of-nil :
        (rows : List Row)
        → AllRows IsValidated rows
        → (failures_of rows ≡ []) ↔ AllRows (λ row. P row.columns) rows
    unfolding failures_of IsValidated
    failures_of-nil [] h = (λ _. tt, λ _. refl)
    failures_of-nil (row ∷ rows) h =
        let later = failures_of-nil rows h.1 in
        elim (List-cases row.errors) [
          | inl none_found ↦
              let good = (valid row.columns).0 (sym h.0 ∙ none_found) in
              rw (failures_of, none_found) (λ e. (good, later.0 e), λ k. later.1 k.1)
          | inr (e, es, found) ↦
              rw (failures_of, found)
                (λ none. absurd cc, λ k. let good = h.0 ∙ (valid row.columns).1 k.0 in absurd cc)
        ]

-- what a suite's rows are to be, and how many configurations it has
abbrev pub IsPredicted : Suite → Columns → Type 0
IsPredicted tuple = TupleIsPredicted
IsPredicted participation = PartIsPredicted

abbrev pub suite_size : Suite → ℕ
suite_size tuple = length tuple_configs
suite_size participation = length part_configs

abbrev Judged : Suite → ℕ → List Row × List Row → Type 0
Judged suite repeats r =
    (length r.0 ≡ repeats * suite_size suite)
    × ((r.1 ≡ []) ↔ AllRows (λ row. IsPredicted suite row.columns) r.0)

run_suite-Gives :
    (str : ℕ → String) (runner : Config → ℕ → Result Columns) (suite : Suite) (repeats : ℕ)
    → Gives (Judged suite repeats) (run_suite str runner suite repeats)
unfolding run_suite
run_suite-Gives str runner tuple repeats =
    bind-Gives (Counted runner (validate_tuple str) _) (Judged tuple repeats) _ _
      (run_configs-Gives runner (validate_tuple str) repeats tuple_configs)
      (λ rows h. (
        h.0,
        failures_of-nil runner (validate_tuple str) TupleIsPredicted (validate_tuple-nil str) rows
            h.1,
      ))
run_suite-Gives str runner participation repeats =
    bind-Gives (Counted runner (validate_part str) _) (Judged participation repeats) _ _
      (run_configs-Gives runner (validate_part str) repeats part_configs)
      (λ rows h. (
        h.0,
        failures_of-nil runner (validate_part str) PartIsPredicted (validate_part-nil str) rows h.1,
      ))

-- A suite that runs through has a row for each configuration and repeat, and it returns no failures
-- exactly if every row is what the model of claims predicts of its columns: of T tasks with R resident,
-- min(T, R) workers and each task from R on claimed once (tuple), or each task served once, in order
-- without holes if all workers claim, and with holes and more workers if not (participation).
pub run_suite-IsPredicted :
    (str : ℕ → String) (runner : Config → ℕ → Result Columns) (suite : Suite) (repeats : ℕ)
    (rows failures : List Row)
    → run_suite str runner suite repeats ≡ ok (rows, failures)
    → (length rows ≡ repeats * suite_size suite)
      × ((failures ≡ []) ↔ AllRows (λ row. IsPredicted suite row.columns) rows)
run_suite-IsPredicted str runner suite repeats rows failures e =
    subst (Gives (Judged suite repeats)) e (run_suite-Gives str runner suite repeats)
