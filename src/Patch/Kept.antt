-- ===== src/Patch/Kept.antt =====
-- What a run of `main` that writes counts, and which files it leaves alone.
use Prim.Native.String.{String}
use text.Mathlib.Text.{◌==◌ as text_eq}
use sched_pass.Prelude.{
  ℕ, ◌+◌, ◌≡◌, refl, ◌∙◌, subst, Bool, true, false, ◌||◌, none, some, List, [], ◌∷◌, Bool-cases,
  Option-cases, length, arith, inl, inr,
}
use text.Mathlib.TextEquality.{eq_iff}
use sched_pass.Prelude.Texts.{has_part}
use sched_pass.Dict.{lookup, insert}
use sched_pass.Dict.Laws.{lookup-insert_other, lookup-insert_if}
use sched_pass.Env.{texts}
use sched_pass.Env.Bake.{texts-IsKeys}
use sched_pass.Patch.{
  Patch, Files, Tally, patches, patch_text, apply_patch, apply_patches, no_patches, run_patches,
  patch_main,
}

-- one of the patches is for this file
unfoldable pub is_patched : List Patch → String → Bool
is_patched [] path = false
is_patched (patch ∷ rest) path = text_eq patch.rel path || is_patched rest path

unfoldable pub is_there : Files → String → Bool
unfolding lookup
is_there files path = elim (lookup texts files path) [ none ↦ false | some _ ↦ true ]

abbrev pub total : Tally → ℕ
total t = t.applied + t.already + t.missing + t.drifted

-- What holds of one patch and of several: the count, the files that are there, and those left alone.
record KeepsFiles (files files' : Files) (t t' : Tally) (n : ℕ) (touched : String → Bool)
    : Type 0 where
  counted : total t' ≡ total t + n
  same_there : (path : String) → is_there files' path ≡ is_there files path
  alone :
      (path : String) → touched path ≡ false → lookup texts files' path ≡ lookup texts files path

unchanged :
    (files : Files) (t t' : Tally) (touched : String → Bool)
    → total t' ≡ total t + 1
    → KeepsFiles files files t t' 1 touched
unchanged files t t' touched h = record {
  counted = h;
  same_there = λ path. refl;
  alone = λ path _. refl;
}

written :
    (files : Files) (t t' : Tally) (rel s : String) {old : String}
    → lookup texts files rel ≡ some old
    → total t' ≡ total t + 1
    → KeepsFiles files (insert texts files rel s) t t' 1 (text_eq rel)
unfolding is_there
written files t t' rel s {old} e h = record {
  counted = h;
  same_there = λ path.
      let found = lookup-insert_if texts texts-IsKeys files rel path s in
      elim (Bool-cases (text_eq rel path)) [
        | inr other ↦ rw (is_there, found, other) refl
        | inl same ↦
            let before =
              subst (λ (p : String). lookup texts files p ≡ some old) ((eq_iff rel path).0 same)
                e in
            rw (is_there, found, same, before) refl
      ];
  alone = λ path other. lookup-insert_other texts texts-IsKeys files rel path s other;
}

applied :
    (check : Bool) (patch : Patch) (files : Files) (t : Tally)
    → KeepsFiles files
        (apply_patch check patch files t).0
        t
        (apply_patch check patch files t).1
        1
        (text_eq patch.rel)
unfolding apply_patch patch_text
applied check patch files t = elim (Option-cases (lookup texts files patch.rel)) [
  | inl e ↦ rw (apply_patch, e) (unchanged files t _ _ (omega arith))
  | inr (s, e) ↦ elim (Bool-cases (has_part s patch.old)) [
    | inl o ↦ elim (Bool-cases check) [
      | inl c ↦ rw (apply_patch, e, patch_text, o, c) (unchanged files t _ _ (omega arith))
      | inr c ↦
          rw (apply_patch, e, patch_text, o, c) (written files t _ patch.rel _ e (omega arith))
    ]
    | inr o ↦ elim (Bool-cases (has_part s patch.new)) [
      | inl n ↦ rw (apply_patch, e, patch_text, o, n) (unchanged files t _ _ (omega arith))
      | inr n ↦ rw (apply_patch, e, patch_text, o, n) (unchanged files t _ _ (omega arith))
    ]
  ]
]

or_cases : (a b : Bool) → (a || b) ≡ false → (a ≡ false) × (b ≡ false)
or_cases false b h = (refl, h)
or_cases true b h = absurd cc

all_applied :
    (check : Bool) (ps : List Patch) (files : Files) (t : Tally)
    → KeepsFiles files
        (apply_patches check ps files t).0
        t
        (apply_patches check ps files t).1
        (length ps)
        (is_patched ps)
unfolding apply_patches is_patched
all_applied check [] files t = record {
  counted = omega arith;
  same_there = λ path. refl;
  alone = λ path _. refl;
}
all_applied check (patch ∷ rest) files t =
    let first = applied check patch files t in
    let later =
      all_applied check rest (apply_patch check patch files t).0
        (apply_patch check patch files t).1 in
    record {
      counted = omega (arith, first.counted, later.counted);
      same_there = λ path. later.same_there path ∙ first.same_there path;
      alone = λ path untouched.
          let (one, others) = or_cases (text_eq patch.rel path) _ untouched in
          later.alone path others ∙ first.alone path one;
    }

-- Whether it writes or not, `main` counts each of the patches once, as applied, already there, missing
-- or drifted. It makes and removes no file, and a file that no patch is for keeps its text.
pub patch_main-KeepsFiles :
    (check : Bool) (files : Files)
    → (n : ℕ) × (files' : Files) × (t : Tally) × (patch_main check (some files)
        ≡ (n, some (files', t)))
      × (total t ≡ length patches)
      × ((path : String) → is_there files' path ≡ is_there files path)
      × ((path : String)
          → is_patched patches path ≡ false
          → lookup texts files' path ≡ lookup texts files path)
unfolding patch_main run_patches
patch_main-KeepsFiles check files =
    let h = all_applied check patches files no_patches in
    (_, _, _, refl, h.counted, h.same_there, h.alone)
