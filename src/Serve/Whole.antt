-- ===== src/Serve/Whole.antt =====
-- The hooks `on_batch_begin` and `on_batch_end` as a whole: what all their updates of the state keep,
-- the hooks keep, also where they raise.
use sched_pass.Prelude.{
  ℕ, ◌+◌, Bool, Option, none, some, List, ltb, inl, inr, Option-cases, Bool-cases,
}
use sched_pass.Prelude.Exec.{modify}
use sched_pass.Prelude.Exec.Keeps.{
  Keeps, done-Keeps, modify-Keeps, bind-Keeps, state-Keeps, branch-Keeps, action_rules,
}
use sched_pass.Floats.{Floats}
use sched_pass.Torch.{Torch}
use sched_pass.Tensors.{Tensors}
use sched_pass.Rt.Plane.{
  SchedPlane, use_device_timer, use_device_order, clear_timer, set_timer_enabled, push,
}
use sched_pass.Rt.Plane.Methods.{
  Method, run, clear, device_timer, device_order, timer_enabled, publish_all,
}
use sched_pass.Serve.State.{Serve, World, Binding, on_plane, the_plane}
use sched_pass.Serve.Plane.{arm, new_plane, create_plane, create_if, check_capacity, ensure_plane}
use sched_pass.Serve.Probe.{
  fold_probe, fold_bound, take_probe, consume, consume_probe, record_probe, mark_end, on_batch_end,
}
use sched_pass.Serve.Enforce.{formats, plan_step, plan_slots, on_batch_begin}
use sched_pass.Serve.Enforce.Stable.{
  Stable, decide-Keeps, publish_step-Keeps, report-Keeps, resolve_r-Keeps,
}

pub the_plane-Keeps : {f : Floats} {P : Serve f → Type 0} → Keeps P the_plane
unfolding the_plane
the_plane-Keeps = record {
  kept = λ s h. elim (Option-cases s.plane) [
    | inl e ↦ rw (e, the_plane) h
    | inr (p, e) ↦ rw (e, the_plane) h
  ];
}

-- Whatever `_plane` checks, it changes nothing.
pub check_capacity-Keeps : {f : Floats} {P : Serve f → Type 0} (n : ℕ) → Keeps P (check_capacity n)
unfolding check_capacity
check_capacity-Keeps n = record {
  kept = λ s h. elim (Option-cases s.plane) [
    | inl e ↦ rw (e, check_capacity) h
    | inr (p, e) ↦ elim (Bool-cases (ltb p.size n)) [
      | inl e' ↦ rw (e, e', check_capacity) h
      | inr e' ↦ rw (e, e', check_capacity) h
    ]
  ];
}

-- What the updates of the hooks keep, those of the plane's first use included.
pub record Whole {f : Floats} {t : Torch} (x : Tensors f t) (P : Serve f → Type 0) : Type 0 where
  pub stable : Stable x P
  pub method : (m : Method (formats x)) → Keeps P (on_plane (run (formats x) m))
  pub new_plane_keeps : (w : World) → Keeps P (new_plane w)
  pub arm_keeps : (w : World) (p : SchedPlane) → Keeps P (modify (arm w p))
  pub cycles : (c : Option (List ℕ)) → Keeps P (modify (λ s. record s { last_cycles = c }))
  pub pending :
      (b : Option (ℕ × Option (Binding f))) → Keeps P (modify (λ s. record s { pending = b }))
  pub marked : (ev : ℕ) → Keeps P (modify (λ s. record s { pending = some (ev, s.binding) }))
  pub inflight : (ev : Option ℕ) → Keeps P (modify (λ s. record s { inflight = ev }))
  pub folded : (b : Binding f) (cyc : List ℕ) → Keeps P (fold_probe b cyc)

module _ {f : Floats} {t : Torch} (x : Tensors f t) {P : Serve f → Type 0} (whole : Whole x P) where
  open whole use {
    stable, method, new_plane_keeps, arm_keeps, cycles, pending, marked, inflight, folded,
  }

  armed-Keeps : (b : Bool) → Keeps P (modify (λ s. record s { timer_armed = b }))
  armed-Keeps b = modify-Keeps _ (stable.armed b)

  device_timer-Keeps : (ptr : ℕ) → Keeps P (on_plane (use_device_timer ptr))
  unfolding run
  device_timer-Keeps ptr = method (device_timer ptr)

  device_order-Keeps : (ptr : ℕ) → Keeps P (on_plane (use_device_order ptr))
  unfolding run
  device_order-Keeps ptr = method (device_order ptr)

  clear_timer-Keeps : Keeps P (on_plane clear_timer)
  unfolding run
  clear_timer-Keeps = method clear

  timer-Keeps : (b : Bool) → Keeps P (on_plane (set_timer_enabled b))
  unfolding run
  timer-Keeps b = method (timer_enabled b)

  push-Keeps : Keeps P (on_plane push)
  unfolding run
  push-Keeps = method publish_all

  create_plane-Keeps : (w : World) → Keeps P (create_plane w)
  unfolding create_plane
  create_plane-Keeps w = bind-Keeps _ _ (new_plane_keeps w) (λ _. bind-Keeps _ _ state-Keeps (λ s.
      bind-Keeps _ _ (search (branch-Keeps, device_timer-Keeps, done-Keeps)) (λ _.
        bind-Keeps _ _ (search (branch-Keeps, device_order-Keeps, done-Keeps)) (λ _.
          bind-Keeps _ _ the_plane-Keeps (λ p. search (branch-Keeps, arm_keeps, done-Keeps))))))

  create_if-Keeps : (w : World) (o : Option SchedPlane) → Keeps P (create_if w o)
  unfolding create_if
  create_if-Keeps w none = create_plane-Keeps w
  create_if-Keeps w (some p) = done-Keeps

  pub ensure_plane-Keeps : (w : World) (n : ℕ) → Keeps P (ensure_plane w n)
  unfolding ensure_plane
  ensure_plane-Keeps w n = search (action_rules, create_if-Keeps, check_capacity-Keeps)

  fold_bound-Keeps : (b : Option (Binding f)) (cyc : List ℕ) → Keeps P (fold_bound b cyc)
  unfolding fold_bound
  fold_bound-Keeps none cyc = done-Keeps
  fold_bound-Keeps (some b) cyc = folded b cyc

  consume-Keeps : (w : World) (o : Option (ℕ × Option (Binding f))) → Keeps P (consume w o)
  unfolding consume take_probe
  consume-Keeps w none = done-Keeps
  consume-Keeps w (some (ev, b)) =
      search (action_rules, pending, cycles, the_plane-Keeps, fold_bound-Keeps) depth 10

  consume_probe-Keeps : (w : World) → Keeps P (consume_probe w)
  unfolding consume_probe
  consume_probe-Keeps w = search (action_rules, consume-Keeps)

  pub plan_slots-Keeps :
      (w : World) (probe : Bool) (slots : Option (List ℕ)) → Keeps P (plan_slots x w probe slots)
  unfolding plan_slots plan_step
  plan_slots-Keeps w probe none = done-Keeps
  plan_slots-Keeps w probe (some slots) = bind-Keeps _ _ state-Keeps (λ s.
      bind-Keeps _ _ (ensure_plane-Keeps w _) (λ _. bind-Keeps _ _ (consume_probe-Keeps w) (λ _.
        bind-Keeps _ _ (resolve_r-Keeps x stable w) (λ _.
          bind-Keeps _ _ (decide-Keeps x stable w probe slots _ _ _ _) (λ _.
            bind-Keeps _ _ (publish_step-Keeps x stable probe _ (λ _. clear_timer-Keeps))
              (λ _. report-Keeps x stable))))))

  pub on_batch_begin-Keeps :
      (w : World)
      → Keeps P (modify (λ s. record s { step = s.step + 1 }))
      → Keeps P (on_batch_begin x w)
  unfolding on_batch_begin
  on_batch_begin-Keeps w counted =
      bind-Keeps _ _ state-Keeps
        (λ s. bind-Keeps _ _ counted (λ _. search (branch-Keeps, plan_slots-Keeps, armed-Keeps)))

  pub on_batch_end-Keeps : (w : World) → Keeps P (on_batch_end w)
  unfolding on_batch_end mark_end record_probe
  on_batch_end-Keeps w = search (action_rules, inflight, marked, timer-Keeps, push-Keeps) depth 12
