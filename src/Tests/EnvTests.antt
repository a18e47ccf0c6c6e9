-- ===== src/Tests/EnvTests.antt =====
-- A process that armed an indirect timer before, and arms a direct one now.
use Prim.Native.String.{String, ◌++◌ as cat}
use sched_pass.Prelude.{ℕ, zero, suc, ◌+◌, ◌≡◌, refl, true, false, some, [], ◌∷◌}
use sched_pass.Dict.{lookup}
use sched_pass.Rt.Plane.{order_off, ctrl_off, timer_off, queue_off}
use sched_pass.Env.{texts, Environ, Formats, compute_bake_env, arm_process_env}
use sched_pass.Env.Bake.{compute_bake_env-lookup}
use sched_pass.Env.Arm.{arm_process_env-lookup, arm_process_env-stale}

abbrev tally : ℕ → String
tally zero = ""
tally (suc n) = cat "1" (tally n)

abbrev plain : Formats
plain = record {
  str = tally;
  hex = tally;
  lower = λ s. s;
  join = λ a b. cat a (cat "/" b);
  expanduser = λ s. s;
  weave_tag = λ s. "none";
}

abbrev armed_before : Environ
armed_before = ("HOME", "/root") ∷ ("SCHED_TIMER_INDIRECT", "1") ∷ []

compute_bake_env-lookup_example :
    let env = compute_bake_env plain 4096 8 "pass.so" armed_before false true in
    (lookup texts env "SCHED_BAKE_TASK_ORDER" ≡ some (tally (4096 + order_off)))
    × (lookup texts env "SCHED_BAKE_CTRL" ≡ some (tally (4096 + ctrl_off)))
    × (lookup texts env "SCHED_BAKE_TIMER" ≡ some (tally (4096 + timer_off)))
    × (lookup texts env "SCHED_BAKE_QUEUE" ≡ some (tally (4096 + queue_off)))
    × (lookup texts env "SCHED_MAX_TASKS" ≡ some "11111111")
    × (lookup texts env "SCHED_TIMER_INDIRECT" ≡ lookup texts armed_before "SCHED_TIMER_INDIRECT")
    × (lookup texts env "SCHED_ORDER_INDIRECT" ≡ some "1")
    × (lookup texts env "HOME" ≡ lookup texts armed_before "HOME")
compute_bake_env-lookup_example =
    compute_bake_env-lookup plain 4096 8 "pass.so" armed_before false true "HOME" refl

arm_process_env-lookup_example :
    lookup texts (arm_process_env plain 4096 8 false true "pass.so" armed_before) "HOME"
    ≡ lookup texts (compute_bake_env plain 4096 8 "pass.so" armed_before false true) "HOME"
arm_process_env-lookup_example =
    arm_process_env-lookup plain 4096 8 "pass.so" armed_before false true "HOME"

found : lookup texts armed_before "SCHED_TIMER_INDIRECT" ≡ some "1"
unfolding lookup
found = refl

arm_process_env-stale_example :
    ((value : String) × (lookup texts
          (arm_process_env plain 4096 8 false true "pass.so" armed_before)
          "SCHED_TIMER_INDIRECT"
        ≡ some value))
    × (lookup texts
          (arm_process_env plain 4096 8 false true "pass.so" armed_before)
          "SCHED_TIMER_INDIRECT"
        ≡ lookup texts armed_before "SCHED_TIMER_INDIRECT")
arm_process_env-stale_example =
    arm_process_env-stale plain 4096 8 "pass.so" armed_before true "SCHED_TIMER_INDIRECT" "1" found
