-- ===== src/Env.antt =====
-- python/sched_rt.py, `compute_bake_env` and `SchedPlane.arm_process_env`: the environment of the
-- woven compile. An environment is a dict from texts to texts.
pub mod Bake
pub mod Arm
use Prim.Native.String.{String, ◌++◌ as cat}
use text.Mathlib.Text.{◌==◌ as text_eq, get?}
use sched_pass.Prelude.{
  ℕ, ◌+◌, Bool, true, false, ◌||◌, ◌&&◌, not, Option, none, some, List, [], ◌∷◌, ◌++◌,
  if◌then◌else◌,
}
use sched_pass.Dict.{Keys, lookup, lookup_or, insert, remove, update}
use sched_pass.Rt.Plane.{order_off, ctrl_off, timer_off, queue_off}

abbrev pub texts : Keys
texts = record { Key = String; same = text_eq }

abbrev pub Environ : Type 0
Environ = List (String × String)

-- What the code uses of Python's texts and paths, and of the plugin file.
pub record Formats : Type 0 where
  -- `str(n)` and `f"{n:x}"`
  pub str : ℕ → String
  pub hex : ℕ → String
  -- `s.lower()`
  pub lower : String → String
  -- `os.path.join` and `os.path.expanduser`
  pub join : String → String → String
  pub expanduser : String → String
  -- `_weave_tag`
  pub weave_tag : String → String

-- A row of MANIFEST: its knob, and whether the knob disables the lever.
pub record Lever : Type 0 where
  pub knob : String
  pub disable : Bool

abbrev pub manifest : List Lever
manifest =
    record { knob = "SCHED_WORKQUEUE"; disable = false }
    ∷ record { knob = "SCHED_NO_INDIRECT"; disable = true }
    ∷ record { knob = "SCHED_NO_SHED"; disable = true }
    ∷ record { knob = "SCHED_NO_POLICY"; disable = true }
    ∷ record { knob = "SCHED_NO_TIMER"; disable = true }
    ∷ record { knob = "SCHED_PDL"; disable = false }
    ∷ []

abbrev pub bake_keys : List String
bake_keys =
    "SCHED_PLUGIN" ∷ "SCHED_BAKE_TASK_ORDER" ∷ "SCHED_BAKE_CTRL" ∷ "SCHED_BAKE_TIMER"
    ∷ "SCHED_BAKE_QUEUE" ∷ "SCHED_MAX_TASKS" ∷ "FLASHINFER_WORKSPACE_BASE" ∷ "SCHED_TIMER_INDIRECT"
    ∷ "SCHED_ORDER_INDIRECT" ∷ []

-- whether `env.get(key)` is true: there, and not empty
unfoldable pub is_set : Environ → String → Bool
unfolding lookup
is_set env key = elim (lookup texts env key) [ none ↦ false | some value ↦ not (text_eq value "") ]

-- `knob[len("SCHED_NO_"):][0]`
abbrev pub letter : String → String
letter knob = elim (get? knob 9 10) [ none ↦ "" | some c ↦ c ]

module _ (f : Formats) where
  open f use {str, hex, lower, join, expanduser, weave_tag}

  -- the pairs that are written before the cache directory
  unfoldable pub baked : ℕ → ℕ → String → Bool → Bool → Environ
  baked base max_tasks plugin timer_indirect order_indirect =
      (("SCHED_PLUGIN", plugin)
        ∷ ("SCHED_BAKE_TASK_ORDER", str (base + order_off))
        ∷ ("SCHED_BAKE_CTRL", str (base + ctrl_off))
        ∷ ("SCHED_BAKE_TIMER", str (base + timer_off))
        ∷ ("SCHED_BAKE_QUEUE", str (base + queue_off))
        ∷ ("SCHED_MAX_TASKS", str max_tasks)
        ∷ [])
      ++ ((if timer_indirect then ("SCHED_TIMER_INDIRECT", "1") ∷ [] else [])
          ++ (if order_indirect then ("SCHED_ORDER_INDIRECT", "1") ∷ [] else []))

  mask : Environ → List Lever → String
  unfolding is_set
  mask env [] = ""
  mask env (lever ∷ levers) =
      let rest = mask env levers in
      if lever.disable && is_set env lever.knob then cat (lower (letter lever.knob)) rest else rest

  mode : Environ → String → Bool → Bool → String
  unfolding is_set mask
  mode env plugin timer_indirect order_indirect =
      let queue =
        if is_set env "SCHED_WORKQUEUE"
        then (if is_set env "SCHED_CLC" then "-wqclc" else "-wqtk")
        else "" in
      let timer = if timer_indirect || is_set env "SCHED_TIMER_INDIRECT" then "-ti" else "" in
      let order = if order_indirect || is_set env "SCHED_ORDER_INDIRECT" then "-oi" else "" in
      let levers = mask env manifest in
      let off = if text_eq levers "" then "" else cat "-no" levers in
      cat queue (cat timer (cat order (cat off (cat "-w" (weave_tag plugin)))))

  pub workspace : Environ → ℕ → ℕ → String → Bool → Bool → String
  unfolding mode lookup
  workspace env base max_tasks plugin timer_indirect order_indirect =
      join (lookup_or texts env "SCHED_CACHE_ROOT" (expanduser "~/.cache/flashinfer-sched")) (
        cat "va" (
          cat (hex base)
            (cat "-n" (cat (str max_tasks) (mode env plugin timer_indirect order_indirect)))))

  unfoldable pub compute_bake_env : ℕ → ℕ → String → Environ → Bool → Bool → Environ
  unfolding baked workspace insert update
  compute_bake_env base max_tasks plugin base_env timer_indirect order_indirect =
      let env = update texts base_env (baked base max_tasks plugin timer_indirect order_indirect) in
      insert texts env "FLASHINFER_WORKSPACE_BASE"
        (workspace env base max_tasks plugin timer_indirect order_indirect)

-- the loop of `arm_process_env`
unfoldable pub arm_keys : Environ → List String → Environ → Environ
unfolding lookup insert remove
arm_keys env [] environ = environ
arm_keys env (key ∷ keys) environ = arm_keys env keys (elim (lookup texts env key) [
  | none ↦ remove texts environ key
  | some value ↦ insert texts environ key value
])

-- `arm_process_env`, of a plane at `base`; `environ` is `os.environ`, which `bake_env` starts from.
pub arm_process_env : Formats → ℕ → ℕ → Bool → Bool → String → Environ → Environ
unfolding arm_keys
arm_process_env f base max_tasks timer_indirect order_indirect plugin environ =
    let env = compute_bake_env f base max_tasks plugin environ timer_indirect order_indirect in
    arm_keys env bake_keys environ
