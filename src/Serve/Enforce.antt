-- ===== src/Serve/Enforce.antt =====
-- python/sched_sglang_plugin.py, `on_batch_begin`: the cadence, and for a planned step the order,
-- the claim loop, the hints and what is published.
pub mod Stable
use sched_pass.Prelude.{
  ℕ, zero, suc, ◌+◌, ◌-◌, ◌*◌, ◌%◌, Bool, true, false, not, ◌&&◌, ◌||◌, Option, none, some, List,
  [], ◌∷◌, map, if◌then◌else◌, ltb, leb, ◌==◌, length, range,
}
use sched_pass.Prelude.Int.{ℤ, pos, pos_part, ltb_ℤ, leb_ℤ}
use sched_pass.Prelude.Result.{Result, ok, err, zero_division}
use sched_pass.Prelude.Exec.{◌>>=◌, ◌>>◌, done, state, modify, lift}
use sched_pass.Floats.{Floats}
use sched_pass.Torch.{Torch}
use sched_pass.Tensors.{Tensors}
use sched_pass.Dict.{lookup_or}
use sched_pass.Env.{Environ, texts}
use text.Mathlib.Text.{◌==◌ as text_eq}
use sched_pass.Rt.Plane.{
  FloatFormat, set_timer_enabled, set_num_tasks, set_order_size, reset_order, install_order,
  set_row, push, clear_timer,
}
use sched_pass.Rt.Order.{region_order}
use sched_pass.Serve.Batch.{
  Value, Batch, AttnMode, decode, prefill, attn_mode, slot_indices, kv_lengths, tile_binding,
  prefill_tile_binding,
}
use sched_pass.Serve.State.{is_some, Serve, World, Binding, Act, on_plane}
use sched_pass.Serve.Plane.{ensure_plane}
use sched_pass.Serve.Probe.{consume_probe, resolve_r}
use sched_pass.Serve.Costs.{
  index, last_or, kv_list_of, request_costs, tile_costs, imbalance_of, is_armed,
}

abbrev pub hint_urgent : ℕ
hint_urgent = 1

abbrev pub hint_polite : ℕ
hint_polite = 2

-- `os.environ.get("SCHED_WEAVE_PREFILL") == "1"`
unfoldable pub weaves_prefill : Environ → Bool
weaves_prefill environ = text_eq (lookup_or texts environ "SCHED_WEAVE_PREFILL" "") "1"

-- the tile binding of a mode, of n requests
unfoldable pub mode_binding : Option AttnMode → Value → ℕ → Option (List ℤ) × ℤ
mode_binding none scheduler n = tile_binding scheduler n
mode_binding (some decode) scheduler n = tile_binding scheduler n
mode_binding (some prefill) scheduler n = prefill_tile_binding scheduler n

-- the tile binding of the batch's mode, with the number of tiles
unfoldable pub binding_of : World → Environ → ℕ → Option (List ℤ) × ℕ
binding_of w environ n =
    let bound = mode_binding (attn_mode (weaves_prefill environ) w.batch) w.scheduler n in
    (bound.0, pos_part bound.1)

module _ {f : Floats} where
  -- `probe`, decided before the step is counted
  unfoldable pub is_probe : Serve f → Bool
  unfolding is_some
  is_probe s = s.step % s.timer_every == 0 && not (is_some s.pending)

  -- whether the cadence lets the step be planned
  unfoldable pub is_planned : Serve f → Bool
  unfolding is_probe
  is_planned s = s.step % s.plan_every == 0 || is_probe s

  -- whether no launched step is still in flight
  unfoldable pub is_idle : World → Serve f → Bool
  is_idle w s = elim s.inflight [ none ↦ true | some ev ↦ w.fired ev ]

  -- `R > 0 and ntiles <= R`
  unfoldable pub is_one_wave : Serve f → ℕ → Bool
  is_one_wave s ntiles = ltb_ℤ (pos 0) s.clc_r && leb_ℤ (pos ntiles) s.clc_r

  -- the branch of the one wave: the order of an earlier step is retired.
  unfoldable pub retire : Act f (Unit {0})
  unfolding is_some
  retire = do
    s ← state
    if is_some s.order_n
        then (do
          on_plane reset_order
          on_plane (set_order_size 0)
          modify (λ s'. record s' { order_n = none }))
        else done

  unfoldable pub one_wave : Act f (Unit {0})
  one_wave = do retire; on_plane (set_num_tasks 0)

  unfoldable pub install_live : List ℕ → ℕ → Act f (Unit {0})
  install_live tasks ntiles = do
    on_plane (install_order tasks ntiles)
    modify (λ s. record s { order_n = some ntiles })

  -- the end of a planned step: the tables are published, the rows of a probe step cleared.
  unfoldable pub publish_step : Bool → Binding f → Act f (Unit {0})
  publish_step probe b = do
    on_plane push
    if probe then on_plane clear_timer else done
    modify (λ s. record s { binding = some b })

  -- the statistics line, of which only the modulus can raise
  unfoldable pub report : Act f (Unit {0})
  report = do s ← state; if s.stats_every == 0 then lift (err zero_division) else done

module _ {f : Floats} {t : Torch} (x : Tensors f t) where
  open f use {Float, zero_float, fmul, flt, fle, of_int}
  open x use {of_count, item, total, median}

  -- The claim loop is armed, on the region-aware order.
  unfoldable pub claim : World → List t.Scalar → ℕ → Act f (Unit {0})
  claim w cost_tile ntiles = do
    s ← state
    install_live (region_order t w.lpt_block cost_tile s.clc_r none) ntiles
    on_plane (set_num_tasks ntiles)

  -- the queued regime: grouped LPT, where no step is in flight
  unfoldable pub queue_up : World → List t.Scalar → ℕ → Act f (Unit {0})
  queue_up w cost_tile ntiles = do
    s ← state
    if is_idle w s
        then install_live (region_order t w.lpt_block cost_tile (pos 0) none) ntiles
        else done
    on_plane (set_num_tasks 0)

  abbrev pub formats : FloatFormat
  formats = record { Float = Float; f32_bits = x.f32_bits; zero_float = zero_float }

  -- the body of the hints' loop
  unfoldable pub hint_row :
      Option (List ℤ) → ℕ → List Float → List t.Scalar → Float → ℕ → Act f (Unit {0})
  unfolding index last_or
  hint_row tile_to_req n cost_req cost_tile thr k = do
    i ← lift (elim tile_to_req [ none ↦ ok (pos k) | some l ↦ index l (pos k) ])
    c ← lift (index cost_req (last_or n i))
    q ← lift (index (map item cost_tile) (pos k))
    on_plane (set_row formats k q 0 (if fle thr c then hint_polite else hint_urgent))

  unfoldable pub for_tiles : (ℕ → Act f (Unit {0})) → List ℕ → Act f (Unit {0})
  for_tiles body [] = done
  for_tiles body (k ∷ ks) = body k >> for_tiles body ks

  -- the hints, where the working set of the batch exceeds the L2 cache
  unfoldable pub hints :
      World
      → Option (List t.Scalar)
      → ℕ
      → Option (List ℤ)
      → ℕ
      → List t.Scalar
      → List t.Scalar
      → Act f (Unit {0})
  hints w none n tile_to_req ntiles cost_req cost_tile = done
  hints w (some kvlen) n tile_to_req ntiles cost_req cost_tile = do
    s ← state
    let thr = if n == 0 then zero_float else item (median cost_req)
    let demand = fmul (item (total kvlen)) (of_int s.kv_bytes_per_token)
    if not (s.kv_bytes_per_token == 0) && flt (of_int w.l2_cache) demand
        then for_tiles (hint_row tile_to_req n (map item cost_req) cost_tile thr) (range ntiles)
        else done

  -- the three regimes of an enforcing step
  unfoldable pub regime : World → Bool → List t.Scalar → ℕ → Act f (Unit {0})
  regime w armed cost_tile ntiles = do
    s ← state
    if armed
        then claim w cost_tile ntiles
        else if is_one_wave s ntiles
        then one_wave
        else queue_up w cost_tile ntiles

  unfoldable pub enforce :
      World
      → List ℕ
      → List Float
      → Option (List t.Scalar)
      → Option (List ℤ)
      → ℕ
      → List t.Scalar
      → List t.Scalar
      → Act f (Unit {0})
  enforce w slots kv_list kvlen tile_to_req ntiles cost_req cost_tile = do
    imbalance ← lift (imbalance_of x cost_tile ntiles)
    s ← state
    regime w (is_armed x s slots kv_list ntiles imbalance) cost_tile ntiles
    hints w kvlen (length slots) tile_to_req ntiles cost_req cost_tile

  -- the part of a planned step between the plane and what is published
  unfoldable pub decide :
      World
      → Bool
      → List ℕ
      → Option (List t.Scalar)
      → List Float
      → Option (List ℤ)
      → ℕ
      → Act f (Unit {0})
  decide w probe slots kvlen kv_list tile_to_req ntiles = do
    s ← state
    cost_req ← lift (request_costs x s.ctl slots kv_list)
    cost_tile ← lift (tile_costs x (length slots) tile_to_req cost_req)
    on_plane (set_timer_enabled probe)
    modify (λ s'. record s' { timer_armed = probe })
    if s.observe_only
        then on_plane (set_num_tasks 0)
        else enforce w slots kv_list kvlen tile_to_req ntiles cost_req cost_tile

  -- a planned step of a batch with the given slots
  unfoldable pub plan_step : World → Bool → List ℕ → Act f (Unit {0})
  plan_step w probe slots = do
    s ← state
    let n = length slots
    let kvlen = kv_lengths of_count w.batch n false
    let kv_list = kv_list_of x kvlen n
    let bound = binding_of w s.environ n
    ensure_plane w bound.1
    consume_probe w
    resolve_r w
    decide w probe slots kvlen kv_list bound.0 bound.1
    publish_step probe
        (record { slots = slots; kv_list = kv_list; tile_to_req = bound.0; ntiles = bound.1 })
    report

  -- by the slots of the batch
  unfoldable pub plan_slots : World → Bool → Option (List ℕ) → Act f (Unit {0})
  plan_slots w probe none = done
  plan_slots w probe (some slots) = plan_step w probe slots

  unfoldable pub on_batch_begin : World → Act f (Unit {0})
  on_batch_begin w = do
    s ← state
    modify (λ s'. record s' { step = s'.step + 1 })
    if is_planned s
        then plan_slots w (is_probe s) (slot_indices w.batch)
        else modify (λ s'. record s' { timer_armed = false })
