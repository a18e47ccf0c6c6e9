-- ===== src/Tests/ServeTests.antt =====
-- Serving two requests: what the hooks do on concrete batches.
use Prim.Native.String.{◌++◌ as cat}
use sched_pass.Rt.Memory.{u32_at}
use sched_pass.Rt.Plane.{push}
use sched_pass.Rt.Plane.{set_num_tasks}
use sched_pass.Rt.Plane.{set_timer_enabled}
use sched_pass.Serve.State.{on_plane}
use sched_pass.Prelude.Exec.{◌>>=◌}
use sched_pass.Serve.Costs.{kv_list_of}
use sched_pass.Serve.Costs.{tile_costs}
use sched_pass.Serve.Costs.{request_costs}
use sched_pass.Serve.Probe.{resolve_r}
use sched_pass.Serve.Probe.{consume}
use sched_pass.Serve.Probe.{consume_probe}
use sched_pass.Serve.Batch.{kv_lengths}
use sched_pass.Serve.Batch.{tile_binding}
use sched_pass.Serve.Batch.{attn_mode}
use sched_pass.Serve.Plane.{check_capacity}
use sched_pass.Serve.Plane.{create_if}
use sched_pass.Serve.Plane.{ensure_plane}
use sched_pass.Serve.Enforce.{report}
use sched_pass.Serve.Enforce.{publish_step}
use sched_pass.Serve.Enforce.{decide}
use sched_pass.Serve.Enforce.{mode_binding}
use sched_pass.Serve.Enforce.{plan_step}
use sched_pass.Serve.Enforce.{plan_slots}
use sched_pass.Serve.Enforce.{is_planned}
use sched_pass.Serve.Batch.{slot_indices}
use sched_pass.Prelude.{
  ◌⊎◌, ℕ, ◌+◌, ◌*◌, ◌/◌, ◌<◌, ◌≡◌, ◌≢◌, refl, true, false, max, Option, none, some, List, [], ◌∷◌,
  if◌then◌else◌, ltb, length, get_or, arith,
}
use sched_pass.Prelude.Int.{pos, pos_part}
use sched_pass.Prelude.Result.{Result, ok, err, runtime_error}
use sched_pass.Env.{Formats}
use sched_pass.Tensors.{Tensors}
use sched_pass.Rt.Plane.{SchedPlane, fresh}
use sched_pass.Rt.Plane.Valid.{IsValid}
use sched_pass.Controller.{SchedControlPlane, lpt}
use sched_pass.Serve.Batch.{none_value, Batch}
use sched_pass.Serve.State.{Serve, World, auto, slot_keys}
use sched_pass.Serve.Hooks.{Process, before, after}
use sched_pass.Serve.Valid.{begun, ended, here, next, Reach-IsValid}
use sched_pass.Rt.Plane.{read_timer}
use sched_pass.Serve.Enforce.{on_batch_begin, binding_of}
use sched_pass.Serve.Enforce.Stable.{OnPlane}
use sched_pass.Serve.Unread.{on_batch_begin-unread}
use sched_pass.Serve.Cadence.{PlansAt, IdlesAt, begins-planned}
use sched_pass.Serve.Found.{IsBound, binding_of-IsBound}
use sched_pass.Serve.Hooks.{begin, end, is_seen, register}
use sched_pass.Serve.Hooks.Errors.{errors, count_first, errors-count_first}
use sched_pass.Serve.Hooks.Register.{register-register}
use sched_pass.Tests.Instances.{exact_torch, whole_floats, sum}

add_all : List ℕ → List ℕ → Option (List ℕ)
add_all [] [] = some []
add_all (x ∷ xs) (y ∷ ys) =
    let rest = add_all xs ys in elim rest [ none ↦ none | some zs ↦ some ((x + y) ∷ zs) ]
add_all _ _ = none

greatest : ℕ → List ℕ → ℕ
greatest m [] = m
greatest m (x ∷ xs) = greatest (max m x) xs

abbrev exact_tensors : Tensors whole_floats exact_torch
exact_tensors = record {
  of_count = λ n. n;
  of_float = λ a. pos_part a;
  item = pos;
  scale = λ a n. pos_part a * n;
  shift = λ n b. n + pos_part b;
  plus = add_all;
  clamp_min = λ lo n. max n (pos_part lo);
  largest = λ l. elim l [ [] ↦ none | x ∷ xs ↦ some (greatest x xs) ];
  mean = λ l. sum l / length l;
  median = λ l. get_or l (length l / 2) 0;
  total = sum;
  divide = λ a b. a / b;
  millionth = pos 1;
  f32_bits = λ a. if ltb (pos_part a) 4294967296 then some (pos_part a) else none;
}

abbrev plain_formats : Formats
plain_formats = record {
  str = λ n. "7";
  hex = λ n. "7";
  lower = λ s. s;
  join = λ a b. cat a b;
  expanduser = λ s. s;
  weave_tag = λ s. "tag";
}

abbrev two_requests : Batch
two_requests = record {
  req_pool_indices_cpu = none;
  req_pool_indices = some (3 ∷ 5 ∷ []);
  seq_lens_cpu = some (10 ∷ 200 ∷ []);
  seq_lens = none;
  forward_mode = some (record { is_decode = true; is_extend = false; is_prefill = false });
}

-- A world in which every event but the last has fired.
abbrev world : World
world = record {
  scheduler = none_value;
  batch = two_requests;
  fired = λ ev. ltb ev 7;
  event = 7;
  arena = ok 4096;
  timer_ptr = 11;
  order_ptr = 12;
  formats = plain_formats;
  parse = λ s. some 4;
  lpt_block = pos 16;
  l2_cache = 100;
  cached_sos = λ s. ok [];
  r_for_cached_so = λ s. 0;
}

abbrev estimator : SchedControlPlane whole_floats slot_keys
estimator = record {
  policy = lpt;
  ewma = pos 0;
  deadband = pos 0;
  fit = record { n = 0; sx = pos 0; sy = pos 0; sxx = pos 0; sxy = pos 0 };
  resid = [];
  gamma = pos 1;
  last_order = [];
}

-- The state at import, enforcing, with every third step planned.
abbrev at_import : Serve whole_floats
at_import = record {
  plane = none;
  base = 0;
  environ = ("SCHED_PLUGIN", "pass.so") ∷ [];
  last_cycles = none;
  step = 0;
  observe_only = false;
  ctl = estimator;
  timer_every = 2;
  timer_armed = false;
  plan_every = 3;
  clc = auto;
  clc_resid = pos 0;
  clc_imbalance = pos 3;
  clc_r = pos 0;
  kv_bytes_per_token = 1;
  binding = none;
  pending = none;
  inflight = none;
  probes_folded = 0;
  order_n = none;
  stats_every = 512;
}

abbrev process : Process whole_floats
process = record {
  serve = at_import;
  hook_errors = 0;
  hook_err_seen = [];
  lines = [];
  moe_armed = false;
  registered = true;
  hooks = [];
}

-- One batch: its two hooks.
begun_once : Process whole_floats
begun_once = before exact_tensors (ok true) world process

ended_once : Process whole_floats
unfolding begun_once
ended_once = after world begun_once

Reach-IsValid_example : OnPlane IsValid ended_once.serve.plane
unfolding ended_once begun_once
Reach-IsValid_example =
    Reach-IsValid exact_tensors (next (next here (begun (ok true) world refl)) (ended world refl))
      refl

-- A probe of event 9, which has not fired.
abbrev probing : Serve whole_floats
probing = record at_import { plane = some (fresh 4); pending = some (9, none) }

on_batch_begin-unread_example :
    (p' : SchedPlane) × ((on_batch_begin exact_tensors world probing).1.plane ≡ some p')
    × (p'.size ≡ 4)
    × (read_timer p' ≡ read_timer (fresh 4))
    × ((on_batch_begin exact_tensors world probing).1.pending ≡ some (9, none))
    × ((on_batch_begin exact_tensors world probing).1.last_cycles ≡ none)
on_batch_begin-unread_example =
    on_batch_begin-unread exact_tensors world probing 9 none (fresh 4) refl refl refl (omega arith)

binding_of-IsBound_example :
    let (tile_to_req, ntiles) = binding_of world at_import.environ 2 in
    IsBound 2 (tile_to_req, pos ntiles)
binding_of-IsBound_example = binding_of-IsBound world at_import.environ 2

errors-count_first_example :
    ((errors (begin ∷ end ∷ begin ∷ []) process).hook_errors ≡ 3)
    × (count_first begin (errors (begin ∷ end ∷ begin ∷ []) process).lines
        ≡ (if is_seen (begin ∷ end ∷ begin ∷ []) begin then 1 else 0))
errors-count_first_example =
    errors-count_first (begin ∷ end ∷ begin ∷ []) process begin refl refl refl

-- Before the registration, with an import that fails.
abbrev unregistered : Process whole_floats
unregistered = record process { registered = false }

register-register_example :
    let (r, first) =
      register plain_formats world.parse world.parse (err runtime_error) unregistered in
    (register plain_formats world.parse world.parse (ok tt) first ≡ (ok tt, first))
    × (◌≢◌ {A = Result (Unit {0})} (err runtime_error) (ok tt) → first.hooks ≡ [])
    × (r ≢ ok tt → first.hooks ≡ [])
register-register_example =
    register-register plain_formats plain_formats world.parse world.parse world.parse world.parse
      (err runtime_error) (ok tt) unregistered

-- A state with a plane that only observes, at a step that is planned and is no probe. Its call returns,
-- with the binding of its two requests published.
abbrev watching : Serve whole_floats
watching = record at_import { plane = some (fresh 4); observe_only = true; step = 3 }

planned_run :
    let (r, s) = on_batch_begin exact_tensors world watching in
    (r ≡ ok tt)
    × (s.binding
        ≡ some (record {
          slots = 3 ∷ 5 ∷ [];
          kv_list = pos 10 ∷ pos 200 ∷ [];
          tile_to_req = none;
          ntiles = 2;
        }))
unfolding on_batch_begin slot_indices is_planned plan_slots plan_step mode_binding decide
    publish_step report ensure_plane create_if check_capacity attn_mode tile_binding kv_lengths
    consume_probe consume resolve_r request_costs tile_costs kv_list_of ◌>>=◌ on_plane
    set_timer_enabled set_num_tasks push binding_of add_all u32_at
planned_run = (refl, refl)

begins-planned_example :
    ((k : ℕ) × (k < 3) × PlansAt exact_tensors (λ i. world) watching k)
    × ((j : ℕ)
        → PlansAt exact_tensors (λ i. world) watching j
          ⊎ IdlesAt exact_tensors (λ i. world) watching j)
begins-planned_example = begins-planned exact_tensors (λ i. world) watching (omega arith)
