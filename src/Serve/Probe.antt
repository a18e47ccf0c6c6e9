-- ===== src/Serve/Probe.antt =====
-- python/sched_sglang_plugin.py, the observation: `_consume_probe`, `_resolve_r` and
-- `on_batch_end`.
use Prim.Native.String.{String}
use text.Mathlib.Text.{◌==◌ as text_eq}
use sched_pass.Prelude.{
  ℕ, ◌+◌, ◌-◌, ◌%◌, Bool, true, false, not, ◌&&◌, Option, none, some, List, [], ◌∷◌, map,
  if◌then◌else◌, ltb, ◌==◌, length,
}
use sched_pass.Prelude.Int.{pos, pos_part, neg_part}
use sched_pass.Prelude.Result.{Result, ok, err}
use sched_pass.Dict.{lookup, lookup_or}
use sched_pass.Floats.{Floats}
use sched_pass.Env.{texts}
use sched_pass.Rt.Plane.{read_timer, set_timer_enabled, push}
use sched_pass.Controller.{observe}
use sched_pass.Plugin.{word, fold_cycles}
use sched_pass.Prelude.Exec.{◌>>=◌, ◌>>◌, done, state, modify, lift}
use sched_pass.Serve.State.{
  is_some, Serve, World, Binding, Clc, off, slot_keys, Act, on_plane, the_plane,
}

-- The float of an int64, from its word.
unfoldable pub cycle_float : (f : Floats) → ℕ → f.Float
cycle_float f c = if ltb c 9223372036854775808 then f.of_int c else f.fneg (f.of_int (word - c))

unfoldable pub is_off : Clc → Bool
is_off off = true
is_off _ = false

-- the search, with the caught exceptions as no result
unfoldable pub found_r : World → String → ℕ
found_r w base =
    let sos : Result (List String) = if text_eq base "" then ok [] else w.cached_sos base in
    elim sos [ err _ ↦ 0 | ok l ↦ elim l [ [] ↦ 0 | so ∷ _ ↦ w.r_for_cached_so so ] ]

module _ {f : Floats} where
  -- the fold into the estimator
  unfoldable pub fold_probe : Binding f → List ℕ → Act f (Unit {0})
  unfolding cycle_float
  fold_probe b cyc = do
    per_req ← lift (fold_cycles (length b.slots) b.ntiles b.tile_to_req cyc)
    modify (λ s. record s {
      ctl = observe f slot_keys b.slots b.kv_list (map (cycle_float f) per_req) s.ctl;
      probes_folded = s.probes_folded + 1;
    })

  -- `b is None`: nothing to fold
  unfoldable pub fold_bound : Option (Binding f) → List ℕ → Act f (Unit {0})
  fold_bound none cyc = done
  fold_bound (some b) cyc = fold_probe b cyc

  -- the branch of a probe whose event has fired
  unfoldable pub take_probe : Option (Binding f) → Act f (Unit {0})
  take_probe b = do
    modify (λ s. record s { pending = none })
    p ← the_plane
    modify (λ s. record s { last_cycles = some (read_timer p) })
    fold_bound b (read_timer p)

  -- by the pending probe
  unfoldable pub consume : World → Option (ℕ × Option (Binding f)) → Act f (Unit {0})
  consume w none = done
  consume w (some (ev, b)) = if w.fired ev then take_probe b else done

  unfoldable pub consume_probe : World → Act f (Unit {0})
  consume_probe w = do s ← state; consume w s.pending

  -- whether the search for R is due
  unfoldable pub is_due : Serve f → Bool
  unfolding is_off
  is_due s =
      (pos_part s.clc_r == 0 && neg_part s.clc_r == 0)
      && (not (is_off s.clc) && (not (s.step == 0) && s.step % 64 == 1))

  unfoldable pub resolve_r : World → Act f (Unit {0})
  unfolding is_due found_r lookup
  resolve_r w = do
    s ← state
    let r = found_r w (lookup_or texts s.environ "FLASHINFER_WORKSPACE_BASE" "")
    if is_due s && ltb 0 r then modify (λ s'. record s' { clc_r = pos r }) else done

  -- the branch of a probe step
  unfoldable pub record_probe : World → Act f (Unit {0})
  record_probe w = do
    modify (λ s. record s { pending = some (w.event, s.binding) })
    on_plane (set_timer_enabled false)
    on_plane push

  -- what `on_batch_end` does with a plane
  unfoldable pub mark_end : World → Act f (Unit {0})
  mark_end w = do
    modify (λ s. record s { inflight = some w.event })
    s ← state
    if s.timer_armed then record_probe w else done

  unfoldable pub on_batch_end : World → Act f (Unit {0})
  on_batch_end w = do s ← state; if is_some s.plane then mark_end w else done
