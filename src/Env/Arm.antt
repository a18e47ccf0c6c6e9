-- ===== src/Env/Arm.antt =====
-- `arm_process_env`: what it leaves in the environment of the process.
use Prim.Native.String.{String}
use text.Mathlib.Text.{◌==◌ as text_eq}
use sched_pass.Prelude.{
  ℕ, ◌≡◌, refl, ap, sym, ◌∙◌, Bool, true, false, ◌||◌, Option, some, none, List, [], ◌∷◌,
  Bool-cases, Option-cases, inl, inr, if◌then◌else◌,
}
use sched_pass.Dict.{lookup, insert, remove}
use sched_pass.Dict.Laws.{lookup-insert_if, lookup-remove_if, last_value}
use sched_pass.Env.{
  texts, Environ, Formats, bake_keys, baked, compute_bake_env, arm_keys, arm_process_env,
}
use sched_pass.Env.Bake.{texts-IsKeys, contains, bake-lookup, bake-unbaked, compute_bake_env-lookup}

-- one round of the loop
armed-lookup :
    (env environ : Environ) (other key : String)
    → lookup texts
        (elim (lookup texts env other) as (λ _. Environ) [
          | none ↦ remove texts environ other
          | some value ↦ insert texts environ other value
        ])
        key
      ≡ (if text_eq other key then lookup texts env key else lookup texts environ key)
armed-lookup env environ other key = elim (Bool-cases (text_eq other key)) [
  | inl e ↦
      let equal : lookup texts env other ≡ lookup texts env key =
        ap (lookup texts env) (texts-IsKeys.same_eq other key e) in
      elim (Option-cases (lookup texts env other)) [
        | inl none_there ↦
            rw (none_there, e)
              (rw e at (lookup-remove_if texts texts-IsKeys environ other key)
                ∙ sym none_there
                ∙ equal)
        | inr (value, there) ↦
            rw (there, e)
              (rw e at (lookup-insert_if texts texts-IsKeys environ other key value)
                ∙ sym there
                ∙ equal)
      ]
  | inr e ↦ elim (Option-cases (lookup texts env other)) [
    | inl none_there ↦
        rw (none_there, e) (rw e at (lookup-remove_if texts texts-IsKeys environ other key))
    | inr (value, there) ↦
        rw (there, e) (rw e at (lookup-insert_if texts texts-IsKeys environ other key value))
  ]
]

arm_keys-lookup :
    (env : Environ) (keys : List String) (environ : Environ) (key : String)
    → lookup texts (arm_keys env keys environ) key
      ≡ (if contains keys key then lookup texts env key else lookup texts environ key)
unfolding arm_keys
arm_keys-lookup env [] environ key = refl
arm_keys-lookup env (other ∷ keys) environ key =
    arm_keys-lookup env keys _ key
    ∙ ap (λ r. if contains keys key then lookup texts env key else r)
        (armed-lookup env environ other key)
    ∙ either (text_eq other key) (contains keys key) (lookup texts env key)
        (lookup texts environ key)
  where
    either :
        (a b : Bool) (x y : Option String)
        → (if b then x else (if a then x else y)) ≡ (if a || b then x else y)
    either true true x y = refl
    either true false x y = refl
    either false b x y = refl

module _ (f : Formats) (base max_tasks : ℕ) (plugin : String) where
  -- `arm_process_env` leaves the process with exactly the environment that `compute_bake_env`
  -- makes of it: every key reads the same in both.
  pub arm_process_env-lookup :
      (environ : Environ) (timer_indirect order_indirect : Bool) (key : String)
      → lookup texts
          (arm_process_env f base max_tasks timer_indirect order_indirect plugin environ)
          key
        ≡ lookup texts
            (compute_bake_env f base max_tasks plugin environ timer_indirect order_indirect)
            key
  unfolding arm_process_env
  arm_process_env-lookup environ timer_indirect order_indirect key =
      let env = compute_bake_env f base max_tasks plugin environ timer_indirect order_indirect in
      arm_keys-lookup env bake_keys environ key ∙ elim (Bool-cases (contains bake_keys key)) [
        | inl e ↦ rw e refl
        | inr e ↦
            rw e (
              sym
                (bake-unbaked f base max_tasks plugin environ timer_indirect order_indirect key e))
      ]

  -- `arm_process_env` removes no key: each one that the process has, it has afterwards, the
  -- indirection flag of a channel that is direct by now included, and that one with its value.
  pub arm_process_env-stale :
      (environ : Environ) (order_indirect : Bool) (key value : String)
      → lookup texts environ key ≡ some value
      → ((value' : String) × (lookup texts
              (arm_process_env f base max_tasks false order_indirect plugin environ)
              key
            ≡ some value'))
        × (lookup texts
              (arm_process_env f base max_tasks false order_indirect plugin environ)
              "SCHED_TIMER_INDIRECT"
            ≡ lookup texts environ "SCHED_TIMER_INDIRECT")
  arm_process_env-stale environ order_indirect key value there =
      let armed = arm_process_env-lookup environ false order_indirect in
      let (dir, at) = bake-lookup f base max_tasks plugin environ false order_indirect key in
      let (_, _, _, _, _, flag, _, _) =
        compute_bake_env-lookup f base max_tasks plugin environ false order_indirect "" refl in
      (
        elim (Bool-cases (text_eq "FLASHINFER_WORKSPACE_BASE" key)) [
          | inl e ↦ (dir, armed key ∙ rw e at at)
          | inr e ↦
              let pairs = baked f base max_tasks plugin false order_indirect in
              elim (Option-cases (last_value texts texts-IsKeys pairs key)) [
                | inl e' ↦ (value, armed key ∙ (rw (e, e') at at) ∙ there)
                | inr (last, e') ↦ (last, armed key ∙ rw (e, e') at at)
              ]
        ],
        armed "SCHED_TIMER_INDIRECT" ∙ flag,
      )
