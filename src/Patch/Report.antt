-- ===== src/Patch/Report.antt =====
-- What `main` reports of the patches, and which files it leaves alone.
use sched_pass.Prelude.{
  ℕ, suc, ◌+◌, ◌≡◌, refl, ◌∙◌, ap, ap₂, inl, inr, Bool, true, false, ◌||◌, ◌==◌, none, some, List,
  [], ◌∷◌, if◌then◌else◌, Bool-cases, Option-cases, arith,
}
use sched_pass.Prelude.Texts.{has_part}
use sched_pass.Dict.{lookup}
use sched_pass.Env.{texts}
use sched_pass.Patch.{
  Patch, Files, Tally, patches, patch_text, apply_patch, apply_patches, exit_code, no_patches,
  run_patches, patch_main,
}

-- The file of the patch is there, with its old text or its new one in it.
abbrev pub is_found : Files → Patch → Bool
is_found files patch = elim (lookup texts files patch.rel) [
  | none ↦ false
  | some s ↦ has_part s patch.old || has_part s patch.new
]

-- how many patches are not
unfoldable pub unfound : Files → List Patch → ℕ
unfound files [] = 0
unfound files (patch ∷ rest) =
    let later = unfound files rest in if is_found files patch then later else suc later

-- the numbers that make the exit code 1
abbrev failures : Tally → ℕ
failures t = t.missing + t.drifted

module _ (files : Files) where
  checked :
      (patch : Patch) (t : Tally)
      → ((apply_patch true patch files t).0 ≡ files)
        × (failures (apply_patch true patch files t).1
            ≡ failures t + (if is_found files patch then 0 else 1))
  unfolding apply_patch patch_text
  checked patch t = elim (Option-cases (lookup texts files patch.rel)) [
    | inl e ↦ rw (apply_patch, e, is_found) (refl, omega arith)
    | inr (s, e) ↦ elim (Bool-cases (has_part s patch.old)) [
      | inl o ↦ rw (apply_patch, e, patch_text, o, is_found) (refl, omega arith)
      | inr o ↦ elim (Bool-cases (has_part s patch.new)) [
        | inl n ↦ rw (apply_patch, e, patch_text, o, n, is_found) (refl, omega arith)
        | inr n ↦ rw (apply_patch, e, patch_text, o, n, is_found) (refl, omega arith)
      ]
    ]
  ]

  all_checked :
      (ps : List Patch) (t : Tally)
      → ((apply_patches true ps files t).0 ≡ files)
        × (failures (apply_patches true ps files t).1 ≡ failures t + unfound files ps)
  unfolding apply_patches unfound
  all_checked [] t = (refl, omega arith)
  all_checked (patch ∷ rest) t =
      let (same, counted) = checked patch t in
      let (kept, later) = all_checked rest (apply_patch true patch files t).1 in
      elim (Bool-cases (is_found files patch)) [
        | inl e ↦
            let now = counted ∙ ap (λ b. failures t + (if b then 0 else 1)) e in
            rw (apply_patches, same, unfound, e) (kept, omega (arith, later, now))
        | inr e ↦
            let now = counted ∙ ap (λ b. failures t + (if b then 0 else 1)) e in
            rw (apply_patches, same, unfound, e) (kept, omega (arith, later, now))
      ]

exit_code-failures : (t : Tally) (n : ℕ) → failures t ≡ n → exit_code t ≡ (if n == 0 then 0 else 1)
unfolding exit_code
exit_code-failures t n h = ground arith

run_patches-check :
    (ps : List Patch) (files : Files)
    → ((run_patches true ps files).0 ≡ (if unfound files ps == 0 then 0 else 1))
      × ((run_patches true ps files).1 ≡ files)
unfolding run_patches
run_patches-check ps files =
    let (same, counted) = all_checked files ps no_patches in
    (exit_code-failures _ (unfound files ps) (omega (arith, counted)), same)

-- `main --check` leaves every file as it was, and its exit code is 0 exactly if each patch finds its
-- file, with the old text or the new one in it; else it is 1.
pub patch_main-check :
    (files : Files)
    → (t : Tally) × (patch_main true (some files)
        ≡ ((if unfound files patches == 0 then 0 else 1), some (files, t)))
unfolding patch_main
patch_main-check files =
    let (exit, same) = run_patches-check patches files in
    (
      (run_patches true patches files).2,
      ap₂ (λ n fs. (n, some (fs, (run_patches true patches files).2))) exit same,
    )
