-- ===== src/Serve/Plane.antt =====
-- python/sched_sglang_plugin.py, `_plane`, which creates the one plane of the process at its first
-- use, and `pre_arm_env`, which sets the environment of the compiles before there is a plane.
use Prim.Native.String.{String}
use text.Mathlib.Text.{◌==◌ as text_eq}
use sched_pass.Prelude.{ℕ, Bool, false, not, Option, none, some, if◌then◌else◌, ltb}
use sched_pass.Prelude.Result.{Result, ok, err, value_error, runtime_error, of_option}
use sched_pass.Dict.{lookup, lookup_or}
use sched_pass.Floats.{Floats}
use sched_pass.Env.{
  Environ, Formats, texts, bake_keys, is_set, arm_process_env, compute_bake_env, arm_keys,
}
use sched_pass.Rt.Arena.{predicted_base}
use sched_pass.Rt.Plane.{SchedPlane, make_plane, use_device_timer, use_device_order}
use sched_pass.Prelude.Exec.{◌>>=◌, ◌>>◌, done, state, modify, lift}
use sched_pass.Serve.State.{is_some, Serve, World, Act, on_plane, the_plane}

-- `os.environ.get(key, default) != "0"`
unfoldable pub is_enabled : Environ → String → Bool
unfolding lookup
is_enabled environ key = not (text_eq (lookup_or texts environ key "1") "0")

module _ {f : Floats} where
  -- `SchedPlane(max_tasks=cap, device="cuda")`, kept in `_PLANE`
  unfoldable pub new_plane : World → Act f (Unit {0})
  unfolding lookup
  new_plane w = do
    s ← state
    size ←
        lift (of_option value_error (w.parse (lookup_or texts s.environ "SCHED_MAX_TASKS" "4096")))
    p ← lift (make_plane size)
    base ← lift w.arena
    modify (λ s. record s { plane = some p; base = base })

  unfoldable pub arm : World → SchedPlane → Serve f → Serve f
  unfolding lookup is_some
  arm w p s = record s {
    environ =
        arm_process_env w.formats s.base p.size (is_some p.timer_dev) (is_some p.order_dev)
          (lookup_or texts s.environ "SCHED_PLUGIN" "") s.environ;
  }

  unfoldable pub create_plane : World → Act f (Unit {0})
  create_plane w = do
    new_plane w
    s ← state
    if is_enabled s.environ "SCHED_TIMER_DEVICE"
        then on_plane (use_device_timer w.timer_ptr)
        else done
    if is_enabled s.environ "SCHED_ORDER_DEVICE"
        then on_plane (use_device_order w.order_ptr)
        else done
    p ← the_plane
    if is_set s.environ "SCHED_PLUGIN" then modify (arm w p) else done

  -- the check of the capacity
  unfoldable pub check_capacity : ℕ → Act f (Unit {0})
  check_capacity max_tasks s = elim s.plane [
    | none ↦ (err runtime_error, s)
    | some p ↦ if ltb p.size max_tasks then (err runtime_error, s) else (ok tt, s)
  ]

  -- the branch of the first use
  unfoldable pub create_if : World → Option SchedPlane → Act f (Unit {0})
  create_if w none = create_plane w
  create_if w (some _) = done

  -- `_plane(max_tasks)`
  unfoldable pub ensure_plane : World → ℕ → Act f (Unit {0})
  ensure_plane w max_tasks = do s ← state; create_if w s.plane; check_capacity max_tasks

-- `pre_arm_env`: `parse` is `int(text)` and `parse_any` is `int(text, 0)`, none where they raise.
unfoldable pub pre_arm_env :
    Formats → (String → Option ℕ) → (String → Option ℕ) → Environ → Result Environ
unfolding is_set is_enabled lookup arm_keys predicted_base
pre_arm_env f parse parse_any environ =
    let plugin = lookup_or texts environ "SCHED_PLUGIN" "" in
    let timer = is_enabled environ "SCHED_TIMER_DEVICE" in
    if not (is_set environ "SCHED_PLUGIN")
    then ok environ
    else elim (parse (lookup_or texts environ "SCHED_MAX_TASKS" "4096")) [
      | none ↦ err value_error
      | some max_tasks ↦ elim (predicted_base parse_any environ) [
        | err e ↦ err e
        | ok base ↦ ok (
            arm_keys (compute_bake_env f base max_tasks plugin environ timer false) bake_keys
              environ)
      ]
    ]
