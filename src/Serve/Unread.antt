-- ===== src/Serve/Unread.antt =====
-- A probe that the GPU has not finished: what `on_batch_begin` leaves of it.
use sched_pass.Prelude.{
  ℕ, ◌+◌, ◌≤◌, ◌≡◌, refl, Bool, false, not, Option, none, some, List, if◌then◌else◌, inl, inr,
  Bool-cases, arith, ◌∙◌, sym, ap, subst, ◌==◌, ◌%◌,
}
use sched_pass.Prelude.Exec.{◌>>=◌, ◌>>◌, done}
use sched_pass.Prelude.Result.{Result}
use sched_pass.Prelude.Exec.Keeps.{Keeps, done-Keeps, bind-Keeps, state-Keeps}
use sched_pass.Floats.{Floats}
use sched_pass.Torch.{Torch}
use sched_pass.Tensors.{Tensors}
use sched_pass.Rt.Plane.{SchedPlane, max_tasks_limit, read_timer}
use sched_pass.Rt.Plane.Methods.{Method, run}
use sched_pass.Rt.Plane.Issued.{
  IsIssued, SameTimer, SameTimer-refl, SameTimer-trans, issued-SameTimer, read_timer-same,
}
use sched_pass.Serve.State.{Serve, World, Binding, on_plane, is_some}
use sched_pass.Serve.Plane.{ensure_plane, create_if, check_capacity}
use sched_pass.Serve.Probe.{consume_probe, consume, take_probe}
use sched_pass.Serve.Enforce.{formats, plan_slots, plan_step, on_batch_begin, is_planned, is_probe}
use sched_pass.Serve.Enforce.Stable.{
  Stable, decide-Keeps, publish_step-Keeps, report-Keeps, resolve_r-Keeps,
}
use sched_pass.Serve.Whole.{check_capacity-Keeps}
use sched_pass.Serve.Batch.{slot_indices}

module _ {f : Floats} {t : Torch} (x : Tensors f t) (ev : ℕ) (b : Option (Binding f))
    (p : SchedPlane) (cycles : Option (List ℕ)) (fits : p.size ≤ max_tasks_limit) where
  -- The probe waits, and the timer holds what it held in the plane `p`.
  record Waits (s : Serve f) : Type 0 where
    pending : s.pending ≡ some (ev, b)
    last_cycles : s.last_cycles ≡ cycles
    plane : SchedPlane
    held : s.plane ≡ some plane
    same : SameTimer p plane

  method-Keeps :
      (m : Method (formats x)) → IsIssued (formats x) m → Keeps Waits (on_plane (run (formats x) m))
  unfolding on_plane
  method-Keeps m i = record {
    kept = λ s h.
        let size = h.same.size in
        rw (h.held, on_plane)
          (record {
            pending = h.pending;
            last_cycles = h.last_cycles;
            plane = (run (formats x) m h.plane).1;
            held = refl;
            same = SameTimer-trans h.same (issued-SameTimer (formats x) m h.plane i (omega arith));
          });
  }

  Waits-Stable : Stable x Waits
  Waits-Stable = record {
    method = method-Keeps;
    armed = λ c s h. record {
      pending = h.pending;
      last_cycles = h.last_cycles;
      plane = h.plane;
      held = h.held;
      same = h.same;
    };
    order_n = λ c s h. record {
      pending = h.pending;
      last_cycles = h.last_cycles;
      plane = h.plane;
      held = h.held;
      same = h.same;
    };
    binding = λ c s h. record {
      pending = h.pending;
      last_cycles = h.last_cycles;
      plane = h.plane;
      held = h.held;
      same = h.same;
    };
    clc_r = λ c s h. record {
      pending = h.pending;
      last_cycles = h.last_cycles;
      plane = h.plane;
      held = h.held;
      same = h.same;
    };
  }

  ensure_plane-Keeps : (w : World) (n : ℕ) → Keeps Waits (ensure_plane w n)
  unfolding ensure_plane create_if ◌>>=◌
  ensure_plane-Keeps w n = record {
    kept = λ s h.
        subst (λ (r : Result (Unit {0}) × Serve f). Waits r.1)
          (sym (ap (λ (o : Option SchedPlane). (create_if w o >> check_capacity n) s) h.held))
          ((check_capacity-Keeps {P = Waits} n).kept s h);
  }

  module _ (w : World) (busy : w.fired ev ≡ false) where
    consume_probe-Keeps : Keeps Waits (consume_probe w)
    unfolding consume_probe consume ◌>>=◌
    consume_probe-Keeps = record {
      kept = λ s h.
          subst (λ (r : Result (Unit {0}) × Serve f). Waits r.1)
            (sym (
              ap (λ (o : Option (ℕ × Option (Binding f))). consume w o s) h.pending
              ∙ ap (λ (c : Bool). (if c then take_probe b else done) s) busy))
            h;
    }

    plan_slots-Keeps : (slots : Option (List ℕ)) → Keeps Waits (plan_slots x w false slots)
    unfolding plan_slots plan_step
    plan_slots-Keeps none = done-Keeps
    plan_slots-Keeps (some slots) = bind-Keeps _ _ state-Keeps (λ s.
        bind-Keeps _ _ (ensure_plane-Keeps w _) (λ _. bind-Keeps _ _ consume_probe-Keeps (λ _.
          bind-Keeps _ _ (resolve_r-Keeps x Waits-Stable w) (λ _.
            bind-Keeps _ _ (decide-Keeps x Waits-Stable w false slots _ _ _ _) (λ _.
              bind-Keeps _ _ (publish_step-Keeps x Waits-Stable false _ (λ e. cc))
                (λ _. report-Keeps x Waits-Stable))))))

    not_probe : (s : Serve f) → Waits s → is_probe s ≡ false
    unfolding is_probe is_some
    not_probe s h = elim (Bool-cases (s.step % s.timer_every == 0)) [
      | inl e ↦ rw e (ap (λ (o : Option (ℕ × Option (Binding f))). not (is_some o)) h.pending)
      | inr e ↦ rw e
    ]

    counted : (s : Serve f) → Waits s → Waits (record s { step = s.step + 1 })
    counted s h = record {
      pending = h.pending;
      last_cycles = h.last_cycles;
      plane = h.plane;
      held = h.held;
      same = h.same;
    }

    on_batch_begin-Waits : (s : Serve f) → Waits s → Waits (on_batch_begin x w s).1
    unfolding on_batch_begin ◌>>=◌
    on_batch_begin-Waits s h = elim (Bool-cases (is_planned s)) [
      | inl e ↦
          rw (e, not_probe s h) ((plan_slots-Keeps (slot_indices w.batch)).kept _ (counted s h))
      | inr e ↦ rw e (record {
        pending = h.pending;
        last_cycles = h.last_cycles;
        plane = h.plane;
        held = h.held;
        same = h.same;
      })
    ]

-- While the GPU has not finished the step of a probe, `on_batch_begin` leaves the probe alone,
-- whatever the batch and whether it returns or raises: the probe stays pending with its binding, no
-- cycles are taken for read, and the timer of the plane, which keeps its size, reads as before. The
-- size is at most the limit that the constructor admits.
pub on_batch_begin-unread :
    {f : Floats} {t : Torch} (x : Tensors f t) (w : World) (s : Serve f) (ev : ℕ)
    (b : Option (Binding f)) (p : SchedPlane)
    → s.pending ≡ some (ev, b)
    → s.plane ≡ some p
    → w.fired ev ≡ false
    → p.size ≤ max_tasks_limit
    → (p' : SchedPlane) × ((on_batch_begin x w s).1.plane ≡ some p')
      × (p'.size ≡ p.size)
      × (read_timer p' ≡ read_timer p)
      × ((on_batch_begin x w s).1.pending ≡ some (ev, b))
      × ((on_batch_begin x w s).1.last_cycles ≡ s.last_cycles)
on_batch_begin-unread x w s ev b p waits held busy fits =
    let h = on_batch_begin-Waits x ev b p s.last_cycles fits w busy s (record {
      pending = waits;
      last_cycles = refl;
      plane = p;
      held = held;
      same = SameTimer-refl p;
    }) in
    (h.plane, h.held, h.same.size, read_timer-same p h.plane fits h.same, h.pending, h.last_cycles)
