-- ===== src/Shim/Keyed.antt =====
-- The guard of the shim's `main`: baked addresses and the workspace that they compile into.
use Prim.Native.String.{String, ◌++◌ as cat}
use text.Mathlib.Text.{◌==◌ as text_eq}
use text.Mathlib.TextEquality.{eq_iff}
use sched_pass.Prelude.{
  arith, ℕ, ◌≡◌, refl, subst, ◌∙◌, ◌⊎◌, Bool, true, false, not, ◌&&◌, none, List, [], ◌∷◌, inl, inr,
  Bool-cases, if◌then◌else◌,
}
use sched_pass.Prelude.Texts.Parts.{HasPart, has_part-HasPart, HasPart-has_part}
use sched_pass.Prelude.Texts.{value_from, starts, all_digits, is_empty}
use sched_pass.Dict.{lookup, lookup_or}
use sched_pass.Env.{Environ, texts}
use sched_pass.Shim.{
  Shim, Outcome, banner, exec, call, main, guarded, without_bake, order_addr, is_keyed, is_in,
  is_woven,
}

-- What is left of the environment without the baked keys.
lookup-without_bake :
    (env : Environ) (key : String)
    → lookup texts (without_bake env) key
      ≡ (if starts key "SCHED_BAKE_" then none else lookup texts env key)
unfolding without_bake lookup
lookup-without_bake [] key = elim (Bool-cases (starts key "SCHED_BAKE_")) [
  | inl e ↦ rw e
  | inr e ↦ rw e
]
lookup-without_bake ((other, value) ∷ env) key = elim (Bool-cases (starts other "SCHED_BAKE_")) [
  | inl baked ↦ elim (Bool-cases (text_eq other key)) [
    | inl same ↦
        let same_key = (eq_iff other key).0 same in
        let key_baked : starts key "SCHED_BAKE_" ≡ true =
          subst (λ (k : String). starts k "SCHED_BAKE_" ≡ true) same_key baked in
        rw (baked, key_baked) (lookup-without_bake env key ∙ rw key_baked refl)
    | inr different ↦ rw (baked, different) (lookup-without_bake env key)
  ]
  | inr plain ↦ elim (Bool-cases (text_eq other key)) [
    | inl same ↦
        let same_key = (eq_iff other key).0 same in
        let key_plain : starts key "SCHED_BAKE_" ≡ false =
          subst (λ (k : String). starts k "SCHED_BAKE_" ≡ false) same_key plain in
        rw (plain, key_plain, lookup, same) refl
    | inr different ↦ rw (plain, lookup, different) (lookup-without_bake env key)
  ]
]

-- The workspace of an environment carries the tag of the order address in it: "va" and the address in
-- hex, somewhere in the path.
abbrev pub IsTagged : (ℕ → String) → Environ → Type 0
IsTagged hex env =
    HasPart (lookup_or texts env "FLASHINFER_WORKSPACE_BASE" "")
      (cat "va" (hex (value_from 0 (order_addr env))))

-- An environment that has lost the keys that start with SCHED_BAKE_, and no others.
abbrev pub IsStripped : Environ → Environ → Type 0
IsStripped env env' =
    (key : String)
    → lookup texts env' key ≡ (if starts key "SCHED_BAKE_" then none else lookup texts env key)

-- The environment of a compile, against that of the invocation.
abbrev pub IsKeyed : (ℕ → String) → Environ → Environ → Type 0
IsKeyed hex env env' =
    (((all_digits (order_addr env) ≡ false) ⊎ IsTagged hex env) × (env' ≡ env))
    ⊎ ((all_digits (order_addr env) ≡ true) × ¬ IsTagged hex env × IsStripped env env')

guarded-IsKeyed : (hex : ℕ → String) (env : Environ) → IsKeyed hex env (guarded hex env)
unfolding guarded
guarded-IsKeyed hex env = elim (Bool-cases (all_digits (order_addr env))) [
  | inr other ↦ rw other (inl (inl refl, refl))
  | inl digits ↦ elim (Bool-cases (is_keyed hex env)) [
    | inl keyed ↦ rw (digits, keyed) (inl (inr (has_part-HasPart _ _ keyed), refl))
    | inr unkeyed ↦
        rw (digits, unkeyed)
          (inr (
            refl,
            λ tagged. absurd (let found = HasPart-has_part _ _ tagged in ground arith),
            lookup-without_bake env,
          ))
  ]
]

-- the environment that a compiler is started in
abbrev pub Compiles : (Environ → Type 0) → Outcome → Type 0
Compiles P (banner _) = Unit
Compiles P (exec _ _ env) = P env
Compiles P (call _ env) = P env

-- Whichever compiler `main` starts: where the order address in the environment of the invocation is no
-- decimal number, or the workspace contains "va" and that address in hex, the compiler gets the
-- environment of the invocation as it is; where it is a decimal number and the workspace does not
-- contain this, the compiler's environment has none of the keys that start with SCHED_BAKE_, and all
-- others as they were.
pub main-IsKeyed :
    (shim : Shim) (hex : ℕ → String) (exists : String → Bool) (env : Environ) (argv : List String)
    → Compiles (IsKeyed hex env) (main shim hex exists env argv)
unfolding main
main-IsKeyed shim hex exists env argv =
    let env' = guarded hex env in
    let real = lookup_or texts env' "SCHED_REAL_NVCC" "" in
    elim (Bool-cases (is_in "--version" argv)) [
      | inl version ↦ rw version tt
      | inr compile ↦
          elim (Bool-cases (not (is_woven env' argv) && (not (is_empty real) && exists real))) [
            | inl routed ↦ rw (compile, routed) (guarded-IsKeyed hex env)
            | inr own ↦ rw (compile, own) (guarded-IsKeyed hex env)
          ]
    ]
