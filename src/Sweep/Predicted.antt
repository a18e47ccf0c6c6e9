-- ===== src/Sweep/Predicted.antt =====
-- When a sweep finds no error: the rows are what the model of claims predicts.
use Prim.Native.String.{String}
use sched_pass.Prelude.{
  ℕ, suc, ◌-◌, ◌<◌, ◌≤◌, min, ◌≡◌, ◌≢◌, refl, ◌↔◌, not, ◌||◌, ◌==◌, leb, List, [], ◌∷◌, ◌++◌,
  if◌then◌else◌, Bool-cases, inl, inr, arith, ==_iff, leb→le,
}
use sched_pass.Sweep.Checks.{
  not_leb, differ_of, of_differ, of_lt, error_if-nil, differ-nil, both_zero-nil, ◌⊗◌,
}
use sched_pass.Sweep.{
  Columns, error_if, check_fields, tuple_checks, validate_tuple, zero_fields, validate_part,
}

-- The columns of a tuple row with T tasks, of which R are resident: nothing is missed or served twice,
-- min(T, R) workers were active, and exactly the tasks from R up to T - 1 were claimed.
abbrev pub TupleIsPredicted : Columns → Type 0
TupleIsPredicted row =
    ((row "missed" ≡ 0)
      × (row "duplicates" ≡ 0)
      × (row "duplicate_claims" ≡ 0)
      × (row "claim_range_holes" ≡ 0))
    × ((row "active_workers" ≡ min (row "tasks") (row "predicted_r"))
        × (row "expected_active_workers" ≡ min (row "tasks") (row "predicted_r"))
        × (row "expected_claimed" ≡ row "tasks" - row "predicted_r"))
    × ((row "w_min" ≡ 0)
        × (row "w_max" ≡ 0)
        × (row "w_nonzero" ≡ 0)
        × (row "w_bins" ≡ 1)
        × (row "structural_ok" ≡ 1))
    × ((row "tasks" ≤ row "predicted_r" → (row "successes" ≡ 0) × (row "unique_claimed" ≡ 0))
        × (row "predicted_r" < row "tasks"
            → (row "unique_claimed" ≡ row "tasks" - row "predicted_r")
              × (row "claimed_min" ≡ row "predicted_r")
              × (suc (row "claimed_max") ≡ row "tasks")))

-- The columns of a participation row: each task was served once. If every worker claims then R workers
-- did, from R up to the last task without holes; else there are holes, and more than R workers.
abbrev pub PartIsPredicted : Columns → Type 0
PartIsPredicted row =
    (row "processed" ≡ row "tasks")
    × ((row "missed" ≡ 0) × (row "duplicates" ≡ 0) × (row "duplicate_claims" ≡ 0))
    × (row "exactly_once" ≡ 1)
    × (row "claim_stride" ≡ 1
        → (row "active_workers" ≡ row "predicted_r")
          × (row "claimed_min" ≡ row "predicted_r")
          × (suc (row "claimed_max") ≡ row "tasks")
          × (row "claim_range_holes" ≡ 0))
    × (row "claim_stride" ≢ 1
        → (row "claim_range_holes" ≢ 0) × (row "predicted_r" < row "active_workers"))

module _ (str : ℕ → String) (row : Columns) where
  abbrev Matches : List (String × ℕ) → Type 0
  Matches [] = Unit
  Matches ((field, expected) ∷ checks) = (row field ≡ expected) × Matches checks

  check_fields-nil :
      (checks : List (String × ℕ)) → (check_fields str row checks ≡ []) ↔ Matches checks
  unfolding check_fields
  check_fields-nil [] = (λ _. tt, λ _. refl)
  check_fields-nil ((field, expected) ∷ checks) =
      differ-nil (row field) expected _ ⊗ check_fields-nil checks

  -- the claims of a tuple row
  claims-nil :
      ((if leb (row "tasks") (row "predicted_r")
          then error_if
              (not (row "successes" == 0) || not (row "unique_claimed" == 0))
              "unexpected claim below/equal R"
          else error_if
              (not (row "unique_claimed" == row "tasks" - row "predicted_r"))
              "unique_claimed mismatch"
            ++ error_if (not (row "claimed_min" == row "predicted_r")) "claimed_min mismatch"
            ++ error_if (not (suc (row "claimed_max") == row "tasks")) "claimed_max mismatch")
        ≡ [])
      ↔ ((row "tasks" ≤ row "predicted_r" → (row "successes" ≡ 0) × (row "unique_claimed" ≡ 0))
          × (row "predicted_r" < row "tasks"
              → (row "unique_claimed" ≡ row "tasks" - row "predicted_r")
                × (row "claimed_min" ≡ row "predicted_r")
                × (suc (row "claimed_max") ≡ row "tasks")))
  claims-nil = elim (Bool-cases (leb (row "tasks") (row "predicted_r"))) [
    | inl e ↦
        let below = leb→le (row "tasks") (row "predicted_r") e in
        let zeros = both_zero-nil (row "successes") (row "unique_claimed") _ in
        rw e (λ h. (λ _. zeros.0 h, λ above. absurd (omega arith)), λ h. zeros.1 (h.0 below))
    | inr e ↦
        let above : row "predicted_r" < row "tasks" = not_leb (row "tasks") (row "predicted_r") e in
        let all =
          differ-nil (row "unique_claimed") (row "tasks" - row "predicted_r")
            "unique_claimed mismatch"
          ⊗ differ-nil (row "claimed_min") (row "predicted_r") "claimed_min mismatch"
          ⊗ differ-nil (suc (row "claimed_max")) (row "tasks") "claimed_max mismatch" in
        rw e (
          λ h. (λ below. absurd (omega arith), λ _. let ((a, b), c) = all.0 h in (a, b, c)),
          λ h. let (a, b, c) = h.1 above in all.1 ((a, b), c),
        )
  ]

  pub validate_tuple-nil : (validate_tuple str row ≡ []) ↔ TupleIsPredicted row
  unfolding validate_tuple
  validate_tuple-nil =
      let all = check_fields-nil (tuple_checks str row) ⊗ claims-nil in
      (
        λ h.
            let (checks, claims) = all.0 h in
            let (a, (b, (c, (d, rest)))) = checks in
            let (e, (f, (g, more))) = rest in
            let (i, (j, (k, (l, (m, _))))) = more in
            ((a, b, c, d), (e, f, g), (i, j, k, l, m), claims),
        λ h.
            let ((a, b, c, d), (e, f, g), (i, j, k, l, m), claims) = h in
            all.1 ((a, (b, (c, (d, (e, (f, (g, (i, (j, (k, (l, (m, tt)))))))))))), claims),
      )

  zero_fields-nil :
      (zero_fields str row ("missed" ∷ "duplicates" ∷ "duplicate_claims" ∷ []) ≡ [])
      ↔ ((row "missed" ≡ 0) × (row "duplicates" ≡ 0) × (row "duplicate_claims" ≡ 0))
  unfolding zero_fields
  zero_fields-nil =
      let last = differ-nil (row "duplicate_claims") 0 _ ⊗ ((λ _. tt), (λ _. refl)) in
      let all = differ-nil (row "missed") 0 _ ⊗ (differ-nil (row "duplicates") 0 _ ⊗ last) in
      (
        λ h. let (a, (b, (c, _))) = all.0 h in (a, b, c),
        λ h. let (a, b, c) = h in all.1 (a, (b, (c, tt))),
      )

  -- the last part of the validation of a participation row
  participation-nil :
      ((if row "claim_stride" == 1
          then error_if
              (not (row "active_workers" == row "predicted_r"))
              "stride=1 active_workers mismatch"
            ++ error_if
                (not (row "claimed_min" == row "predicted_r"))
                "stride=1 claimed_min mismatch"
            ++ error_if
                (not (suc (row "claimed_max") == row "tasks"))
                "stride=1 claimed_max mismatch"
            ++ error_if (not (row "claim_range_holes" == 0)) "stride=1 holes"
          else error_if
              (row "claim_range_holes" == 0)
              "partial participation did not create sparse claims"
            ++ error_if
                (leb (row "active_workers") (row "predicted_r"))
                "partial participation did not launch extra workers")
        ≡ [])
      ↔ ((row "claim_stride" ≡ 1
            → (row "active_workers" ≡ row "predicted_r")
              × (row "claimed_min" ≡ row "predicted_r")
              × (suc (row "claimed_max") ≡ row "tasks")
              × (row "claim_range_holes" ≡ 0))
          × (row "claim_stride" ≢ 1
              → (row "claim_range_holes" ≢ 0) × (row "predicted_r" < row "active_workers")))
  participation-nil = elim (Bool-cases (row "claim_stride" == 1)) [
    | inl e ↦
        let stride = (==_iff (row "claim_stride") 1).0 e in
        let all =
          differ-nil (row "active_workers") (row "predicted_r") "stride=1 active_workers mismatch"
          ⊗ differ-nil (row "claimed_min") (row "predicted_r") "stride=1 claimed_min mismatch"
          ⊗ differ-nil (suc (row "claimed_max")) (row "tasks") "stride=1 claimed_max mismatch"
          ⊗ differ-nil (row "claim_range_holes") 0 "stride=1 holes" in
        rw e (
          λ h.
              (λ _. let (((a, b), c), d) = all.0 h in (a, b, c, d), λ other. absurd (other stride)),
          λ h. let (a, b, c, d) = h.0 stride in all.1 (((a, b), c), d),
        )
    | inr e ↦
        let stride : row "claim_stride" ≢ 1 = differ_of (row "claim_stride") 1 e in
        let all =
          error_if-nil (row "claim_range_holes" == 0) _
          ⊗ error_if-nil (leb (row "active_workers") (row "predicted_r")) _ in
        rw e (
          λ h. (
            λ same. absurd (stride same),
            λ _. let (a, b) = all.0 h in (differ_of _ _ a, not_leb _ _ b),
          ),
          λ h. let (a, b) = h.1 stride in all.1 (of_differ _ _ a, of_lt _ _ b),
        )
  ]

  pub validate_part-nil : (validate_part str row ≡ []) ↔ PartIsPredicted row
  unfolding validate_part
  validate_part-nil =
      let all =
        differ-nil (row "processed") (row "tasks") "processed != tasks"
        ⊗ zero_fields-nil
        ⊗ differ-nil (row "exactly_once") 1 "exactly_once=0"
        ⊗ participation-nil in
      (
        λ h. let (((a, b), c), d) = all.0 h in (a, b, c, d.0, d.1),
        λ h. let (a, b, c, d, e) = h in all.1 (((a, b), c), (d, e)),
      )
