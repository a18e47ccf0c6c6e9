-- ===== src/Env/Bake.antt =====
-- `compute_bake_env`: what the baked environment holds.
use Prim.Native.String.{String}
use text.Mathlib.Text.{◌==◌ as text_eq}
use text.Mathlib.TextEquality.{eq_iff}
use text.Mathlib.TextPositions.{eq_refl}
use sched_pass.Prelude.{
  ℕ, ◌+◌, ◌≡◌, refl, ap, ◌∙◌, Bool, true, false, ◌||◌, some, none, List, [], ◌∷◌, map, arith,
  Bool-cases, inl, inr, if◌then◌else◌,
}
use sched_pass.Dict.{lookup, insert, update}
use sched_pass.Dict.Laws.{IsKeys, lookup-insert_if, last_value, lookup-update}
use sched_pass.Rt.Plane.{order_off, ctrl_off, timer_off, queue_off}
use sched_pass.Env.{texts, Environ, Formats, bake_keys, baked, workspace, compute_bake_env}

pub texts-IsKeys : IsKeys texts
texts-IsKeys = record { same_refl = eq_refl; same_eq = λ a b. (eq_iff a b).0 }

abbrev pub contains : List String → String → Bool
contains [] key = false
contains (other ∷ keys) key = text_eq other key || contains keys key

last_value-none :
    (pairs : Environ) (key : String)
    → contains (map (λ p. p.0) pairs) key ≡ false
    → last_value texts texts-IsKeys pairs key ≡ none
last_value-none [] key h = refl
last_value-none ((other, value) ∷ pairs) key h = elim (Bool-cases (text_eq other key)) [
  | inl e ↦ absurd (ground (arith, e))
  | inr e ↦ rw (last_value-none pairs key (rw e at h), e) refl
]

module _ (f : Formats) (base max_tasks : ℕ) (plugin : String) where
  baked-keys :
      (timer_indirect order_indirect : Bool) (key : String)
      → contains bake_keys key ≡ false
      → contains (map (λ p. p.0) (baked f base max_tasks plugin timer_indirect order_indirect)) key
        ≡ false
  unfolding baked
  baked-keys true true key h = ground arith
  baked-keys true false key h = ground arith
  baked-keys false true key h = ground arith
  baked-keys false false key h = ground arith

  compute_bake_env_eq :
      (environ : Environ) (timer_indirect order_indirect : Bool)
      → compute_bake_env f base max_tasks plugin environ timer_indirect order_indirect
        ≡ insert texts
            (update texts environ (baked f base max_tasks plugin timer_indirect order_indirect))
            "FLASHINFER_WORKSPACE_BASE"
            (workspace f
              (update texts environ (baked f base max_tasks plugin timer_indirect order_indirect))
              base
              max_tasks
              plugin
              timer_indirect
              order_indirect)
  unfolding compute_bake_env
  compute_bake_env_eq environ timer_indirect order_indirect = refl

  -- A key of the baked environment: the cache directory, the last baked pair, or what was there.
  pub bake-lookup :
      (environ : Environ) (timer_indirect order_indirect : Bool) (key : String)
      → (dir : String) × (lookup texts
            (compute_bake_env f base max_tasks plugin environ timer_indirect order_indirect)
            key
          ≡ (if text_eq "FLASHINFER_WORKSPACE_BASE" key
              then some dir
              else elim (last_value texts texts-IsKeys
                  (baked f base max_tasks plugin timer_indirect order_indirect)
                  key) [ none ↦ lookup texts environ key | some last ↦ some last ]))
  bake-lookup environ timer_indirect order_indirect key =
      let pairs = baked f base max_tasks plugin timer_indirect order_indirect in
      let env = update texts environ pairs in
      let dir = workspace f env base max_tasks plugin timer_indirect order_indirect in
      (
        dir,
        rw (compute_bake_env_eq environ timer_indirect order_indirect) (
            lookup-insert_if texts texts-IsKeys env "FLASHINFER_WORKSPACE_BASE" key dir
            ∙ ap (λ r. if text_eq "FLASHINFER_WORKSPACE_BASE" key then some dir else r)
                (lookup-update texts texts-IsKeys environ pairs key)),
      )

  pub bake-unbaked :
      (environ : Environ) (timer_indirect order_indirect : Bool) (key : String)
      → contains bake_keys key ≡ false
      → lookup texts
          (compute_bake_env f base max_tasks plugin environ timer_indirect order_indirect)
          key
        ≡ lookup texts environ key
  bake-unbaked environ timer_indirect order_indirect key h =
      let other : text_eq "FLASHINFER_WORKSPACE_BASE" key ≡ false = ground arith in
      let unbaked =
        last_value-none (baked f base max_tasks plugin timer_indirect order_indirect) key
          (baked-keys timer_indirect order_indirect key h) in
      rw (other, unbaked) at (bake-lookup environ timer_indirect order_indirect key).1

  -- The bake writes the addresses of the four tables, at their offsets from the base, and the
  -- capacity; an indirection flag is "1" where its channel is indirect, and else as it was, as is
  -- every key that is not baked.
  pub compute_bake_env-lookup :
      (environ : Environ) (timer_indirect order_indirect : Bool) (key : String)
      → contains bake_keys key ≡ false
      → let env = compute_bake_env f base max_tasks plugin environ timer_indirect order_indirect in
        (lookup texts env "SCHED_BAKE_TASK_ORDER" ≡ some (f.str (base + order_off)))
        × (lookup texts env "SCHED_BAKE_CTRL" ≡ some (f.str (base + ctrl_off)))
        × (lookup texts env "SCHED_BAKE_TIMER" ≡ some (f.str (base + timer_off)))
        × (lookup texts env "SCHED_BAKE_QUEUE" ≡ some (f.str (base + queue_off)))
        × (lookup texts env "SCHED_MAX_TASKS" ≡ some (f.str max_tasks))
        × (lookup texts env "SCHED_TIMER_INDIRECT"
            ≡ (if timer_indirect then some "1" else lookup texts environ "SCHED_TIMER_INDIRECT"))
        × (lookup texts env "SCHED_ORDER_INDIRECT"
            ≡ (if order_indirect then some "1" else lookup texts environ "SCHED_ORDER_INDIRECT"))
        × (lookup texts env key ≡ lookup texts environ key)
  unfolding baked
  compute_bake_env-lookup environ true true key h =
      let at = bake-lookup environ true true in
      (
        (at "SCHED_BAKE_TASK_ORDER").1,
        (at "SCHED_BAKE_CTRL").1,
        (at "SCHED_BAKE_TIMER").1,
        (at "SCHED_BAKE_QUEUE").1,
        (at "SCHED_MAX_TASKS").1,
        (at "SCHED_TIMER_INDIRECT").1,
        (at "SCHED_ORDER_INDIRECT").1,
        bake-unbaked environ true true key h,
      )
  compute_bake_env-lookup environ true false key h =
      let at = bake-lookup environ true false in
      (
        (at "SCHED_BAKE_TASK_ORDER").1,
        (at "SCHED_BAKE_CTRL").1,
        (at "SCHED_BAKE_TIMER").1,
        (at "SCHED_BAKE_QUEUE").1,
        (at "SCHED_MAX_TASKS").1,
        (at "SCHED_TIMER_INDIRECT").1,
        (at "SCHED_ORDER_INDIRECT").1,
        bake-unbaked environ true false key h,
      )
  compute_bake_env-lookup environ false true key h =
      let at = bake-lookup environ false true in
      (
        (at "SCHED_BAKE_TASK_ORDER").1,
        (at "SCHED_BAKE_CTRL").1,
        (at "SCHED_BAKE_TIMER").1,
        (at "SCHED_BAKE_QUEUE").1,
        (at "SCHED_MAX_TASKS").1,
        (at "SCHED_TIMER_INDIRECT").1,
        (at "SCHED_ORDER_INDIRECT").1,
        bake-unbaked environ false true key h,
      )
  compute_bake_env-lookup environ false false key h =
      let at = bake-lookup environ false false in
      (
        (at "SCHED_BAKE_TASK_ORDER").1,
        (at "SCHED_BAKE_CTRL").1,
        (at "SCHED_BAKE_TIMER").1,
        (at "SCHED_BAKE_QUEUE").1,
        (at "SCHED_MAX_TASKS").1,
        (at "SCHED_TIMER_INDIRECT").1,
        (at "SCHED_ORDER_INDIRECT").1,
        bake-unbaked environ false false key h,
      )
