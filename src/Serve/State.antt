-- ===== src/Serve/State.antt =====
-- python/sched_sglang_plugin.py, `_STATE` and `_PLANE`, what a hook reads of its surroundings, and a
-- hook as an action on them: what it returns or raises, and the state that it leaves.
use Prim.Native.String.{String}
use text.Mathlib.Text.{◌==◌ as text_eq}
use sched_pass.Prelude.{
  ℕ, Bool, true, false, not, max, if◌then◌else◌, Option, none, some, List, ◌==◌,
}
use sched_pass.Prelude.Int.{ℤ, pos}
use sched_pass.Prelude.Result.{Result, ok, err, runtime_error, value_error, of_option, ◌>>=◌}
use sched_pass.Prelude.Exec.{Exec}
use sched_pass.Dict.{Keys, lookup, lookup_or}
use sched_pass.Floats.{Floats}
use sched_pass.Env.{Environ, Formats, texts}
use sched_pass.Rt.Plane.{SchedPlane, Action}
use sched_pass.Controller.{SchedControlPlane}
use sched_pass.Serve.Batch.{Value, Batch}

-- Requests are known by their slots.
abbrev pub slot_keys : Keys
slot_keys = record { Key = ℕ; same = ◌==◌ }

-- `_STATE["clc"]`: one of the three words that are tested, or another text
pub data Clc : Type 0 where
  on auto off unknown : Clc

-- `(rids, kv_lens, tile_to_req or None)` and the number of tiles
pub record Binding (f : Floats) : Type 0 where
  pub slots : List ℕ
  pub kv_list : List f.Float
  pub tile_to_req : Option (List ℤ)
  pub ntiles : ℕ

-- `_STATE`, with `_PLANE` and the arena's base, and with `os.environ`. A CUDA event is its number.
pub record Serve (f : Floats) : Type 0 where
  pub plane : Option SchedPlane
  pub base : ℕ
  pub environ : Environ
  pub last_cycles : Option (List ℕ)
  pub step : ℕ
  pub observe_only : Bool
  pub ctl : SchedControlPlane f slot_keys
  pub timer_every : ℕ
  pub timer_armed : Bool
  pub plan_every : ℕ
  pub clc : Clc
  pub clc_resid : f.Float
  pub clc_imbalance : f.Float
  pub clc_r : ℤ
  pub kv_bytes_per_token : ℕ
  pub binding : Option (Binding f)
  pub pending : Option (ℕ × Option (Binding f))
  pub inflight : Option ℕ
  pub probes_folded : ℕ
  pub order_n : Option ℕ
  pub stats_every : ℕ

-- What a hook reads of its surroundings when it runs.
pub record World : Type 0 where
  pub scheduler : Value
  pub batch : Batch
  -- `ev.query()`
  pub fired : ℕ → Bool
  -- the event that `torch.cuda.Event()` makes
  pub event : ℕ
  -- where a new arena lands, or what its constructor raises
  pub arena : Result ℕ
  -- the addresses of new device tensors
  pub timer_ptr : ℕ
  pub order_ptr : ℕ
  pub formats : Formats
  -- `int(text)` of a number that is not negative
  pub parse : String → Option ℕ
  -- SCHED_LPT_BLOCK as a number
  pub lpt_block : ℤ
  -- `L2_cache_size`
  pub l2_cache : ℕ
  -- the woven decode kernels under a base, sorted, and `r_for_cached_so` of one
  pub cached_sos : String → Result (List String)
  pub r_for_cached_so : String → ℕ

-- `o is not None`
unfoldable pub is_some : {A : Type 0} → Option A → Bool
is_some none = false
is_some (some _) = true

abbrev pub Act : Floats → Type 0 → Type 0
Act f A = Exec (Serve f) A

module _ {f : Floats} where
  -- a method of the plane
  unfoldable pub on_plane : {A : Type 0} → Action A → Exec (Serve f) A
  on_plane m s = elim s.plane [
    | none ↦ (err runtime_error, s)
    | some p ↦ let (r, p') = m p in (r, record s { plane = some p' })
  ]

  -- the plane that a hook holds
  unfoldable pub the_plane : Exec (Serve f) SchedPlane
  the_plane s = elim s.plane [ none ↦ (err runtime_error, s) | some p ↦ (ok p, s) ]

-- `os.environ.get(key, default)` as a number
number : (String → Option ℕ) → Environ → String → String → Result ℕ
number parse environ key default =
    of_option value_error (parse (lookup_or texts environ key default))

clc_of : String → Clc
clc_of word =
    if text_eq word "on"
    then on
    else if text_eq word "auto"
    then auto
    else if text_eq word "off"
    then off
    else unknown

-- `_STATE` at import, from the environment; `float` is `float(text)`, and `ctl` the new estimator.
unfoldable pub initial_state :
    {f : Floats} (parse : String → Option ℕ) (float : String → f.Float)
    → SchedControlPlane f slot_keys
    → Environ
    → Result (Serve f)
unfolding number clc_of lookup
initial_state parse float ctl environ = do
  timer_every ← number parse environ "SCHED_TIMER_EVERY" "8"
  plan_every ← number parse environ "SCHED_PLAN_EVERY" "8"
  clc_r ← number parse environ "SCHED_CLC_R" "0"
  kv_bytes_per_token ← number parse environ "SCHED_KV_BYTES_PER_TOKEN" "0"
  stats_every ← number parse environ "SCHED_STATS_EVERY" "512"
  ok (record {
    plane = none;
    base = 0;
    environ = environ;
    last_cycles = none;
    step = 0;
    observe_only = not (is_some (lookup texts environ "SCHED_SGLANG_ENFORCE"));
    ctl = ctl;
    timer_every = max 1 timer_every;
    timer_armed = false;
    plan_every = max 1 plan_every;
    clc = clc_of (lookup_or texts environ "SCHED_SGLANG_CLC" "auto");
    clc_resid = float (lookup_or texts environ "SCHED_CLC_RESID" "0.75");
    clc_imbalance = float (lookup_or texts environ "SCHED_CLC_IMBALANCE" "3.0");
    clc_r = pos clc_r;
    kv_bytes_per_token = kv_bytes_per_token;
    binding = none;
    pending = none;
    inflight = none;
    probes_folded = 0;
    order_n = none;
    stats_every = stats_every;
  })
