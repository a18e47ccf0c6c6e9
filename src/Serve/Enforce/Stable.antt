-- ===== src/Serve/Enforce/Stable.antt =====
-- The hook `on_batch_begin` part by part: what its updates of the state keep, the hook keeps, also
-- where it raises.
use sched_pass.Prelude.{
  ℕ, ◌≡◌, Bool, true, Option, none, some, List, [], ◌∷◌, inl, inr, Option-cases,
}
use sched_pass.Prelude.Int.{ℤ}
use sched_pass.Prelude.Exec.{modify}
use sched_pass.Prelude.Exec.Keeps.{Keeps, done-Keeps, modify-Keeps, bind-Keeps, action_rules}
use sched_pass.Floats.{Floats}
use sched_pass.Torch.{Torch}
use sched_pass.Tensors.{Tensors}
use sched_pass.Rt.Plane.{
  SchedPlane, Action, set_timer_enabled, set_num_tasks, set_order_size, install_order, set_row,
  reset_order, push, clear_timer,
}
use sched_pass.Rt.Plane.Methods.{
  Method, run, install, reset, order_size, num_tasks, timer_enabled, row, publish_all,
}
use sched_pass.Rt.Plane.Issued.{IsIssued}
use sched_pass.Serve.State.{Serve, World, Binding, Act, on_plane}
use sched_pass.Serve.Probe.{resolve_r}
use sched_pass.Serve.Enforce.{
  formats, retire, one_wave, install_live, publish_step, report, claim, queue_up, hint_row,
  for_tiles, hints, regime, enforce, decide,
}

-- The plane, where there is one, has the property.
abbrev pub OnPlane : (SchedPlane → Type 0) → Option SchedPlane → Type 0
OnPlane Q none = Unit
OnPlane Q (some p) = Q p

pub on_plane-Keeps :
    {f : Floats} {A : Type 0} (Q : SchedPlane → Type 0) (m : Action A)
    → ((p : SchedPlane) → Q p → Q (m p).1)
    → Keeps (λ (s : Serve f). OnPlane Q s.plane) (on_plane m)
unfolding on_plane
on_plane-Keeps Q m keep = record {
  kept = λ s h. elim (Option-cases s.plane) [
    | inl e ↦ rw (e, on_plane) (rw e tt)
    | inr (p, e) ↦ rw (e, on_plane) (keep p (rw e at h))
  ];
}

module _ {f : Floats} {t : Torch} (x : Tensors f t) where
  -- What the updates of a planned step keep.
  pub record Stable (P : Serve f → Type 0) : Type 0 where
    pub method :
        (m : Method (formats x)) → IsIssued (formats x) m → Keeps P (on_plane (run (formats x) m))
    pub armed : (b : Bool) (s : Serve f) → P s → P (record s { timer_armed = b })
    pub order_n : (n : Option ℕ) (s : Serve f) → P s → P (record s { order_n = n })
    pub binding : (b : Option (Binding f)) (s : Serve f) → P s → P (record s { binding = b })
    pub clc_r : (r : ℤ) (s : Serve f) → P s → P (record s { clc_r = r })

  module _ {P : Serve f → Type 0} where
    for_tiles-Keeps :
        (body : ℕ → Act f (Unit {0}))
        → ((k : ℕ) → Keeps P (body k))
        → (ks : List ℕ) → Keeps P (for_tiles x body ks)
    unfolding for_tiles
    for_tiles-Keeps body keep [] = done-Keeps
    for_tiles-Keeps body keep (k ∷ ks) =
        bind-Keeps (body k) _ (keep k) (λ _. for_tiles-Keeps body keep ks)

    module _
        (rows : (k : ℕ) (q : f.Float) (hint : ℕ)
          → Keeps P (on_plane (set_row (formats x) k q 0 hint))) where
      hint_row-Keeps :
          (tile_to_req : Option (List ℤ)) (n : ℕ) (cost_req : List f.Float)
          (cost_tile : List t.Scalar) (thr : f.Float) (k : ℕ)
          → Keeps P (hint_row x tile_to_req n cost_req cost_tile thr k)
      unfolding hint_row
      hint_row-Keeps tile_to_req n cost_req cost_tile thr k = search (action_rules, rows)

      -- The hints keep what the rows keep.
      pub hints-Keeps :
          (w : World) (kvlen : Option (List t.Scalar)) (n : ℕ) (tile_to_req : Option (List ℤ))
          (ntiles : ℕ) (cost_req cost_tile : List t.Scalar)
          → Keeps P (hints x w kvlen n tile_to_req ntiles cost_req cost_tile)
      unfolding hints
      hints-Keeps w none n tile_to_req ntiles cost_req cost_tile = done-Keeps
      hints-Keeps w (some kvlen) n tile_to_req ntiles cost_req cost_tile =
          search (action_rules, for_tiles-Keeps, hint_row-Keeps)

  module _ {P : Serve f → Type 0} (st : Stable P) where
    open st use {method, armed, order_n, binding, clc_r}

    num_tasks-Keeps : (n : ℕ) → Keeps P (on_plane (set_num_tasks n))
    unfolding run
    num_tasks-Keeps n = method (num_tasks n) tt

    install-Keeps : (tasks : List ℕ) (n : ℕ) → Keeps P (on_plane (install_order tasks n))
    unfolding run
    install-Keeps tasks n = method (install tasks n) tt

    reset-Keeps : Keeps P (on_plane reset_order)
    unfolding run
    reset-Keeps = method reset tt

    order_size-Keeps : (n : ℕ) → Keeps P (on_plane (set_order_size n))
    unfolding run
    order_size-Keeps n = method (order_size n) tt

    timer-Keeps : (b : Bool) → Keeps P (on_plane (set_timer_enabled b))
    unfolding run
    timer-Keeps b = method (timer_enabled b) tt

    row-Keeps :
        (k : ℕ) (q : f.Float) (hint : ℕ) → Keeps P (on_plane (set_row (formats x) k q 0 hint))
    unfolding run
    row-Keeps k q hint = method (row k q 0 hint) tt

    push-Keeps : Keeps P (on_plane push)
    unfolding run
    push-Keeps = method publish_all tt

    order_n-Keeps : (n : Option ℕ) → Keeps P (modify (λ s. record s { order_n = n }))
    order_n-Keeps n = modify-Keeps _ (order_n n)

    armed-Keeps : (b : Bool) → Keeps P (modify (λ s. record s { timer_armed = b }))
    armed-Keeps b = modify-Keeps _ (armed b)

    binding-Keeps : (b : Option (Binding f)) → Keeps P (modify (λ s. record s { binding = b }))
    binding-Keeps b = modify-Keeps _ (binding b)

    clc_r-Keeps : (r : ℤ) → Keeps P (modify (λ s. record s { clc_r = r }))
    clc_r-Keeps r = modify-Keeps _ (clc_r r)

    install_live-Keeps : (tasks : List ℕ) (n : ℕ) → Keeps P (install_live tasks n)
    unfolding install_live
    install_live-Keeps tasks n = search (action_rules, install-Keeps, order_n-Keeps)

    retire-Keeps : Keeps P retire
    unfolding retire
    retire-Keeps = search (action_rules, reset-Keeps, order_size-Keeps, order_n-Keeps) depth 8

    queue_up-Keeps : (w : World) (costs : List t.Scalar) (n : ℕ) → Keeps P (queue_up x w costs n)
    unfolding queue_up
    queue_up-Keeps w costs n = search (action_rules, install_live-Keeps, num_tasks-Keeps) depth 8

    regime-Keeps :
        (w : World) (b : Bool) (costs : List t.Scalar) (n : ℕ) → Keeps P (regime x w b costs n)
    unfolding regime claim one_wave
    regime-Keeps w b costs n =
        search (action_rules, install_live-Keeps, num_tasks-Keeps, retire-Keeps, queue_up-Keeps)
          depth 9

    enforce-Keeps :
        (w : World) (slots : List ℕ) (kv_list : List f.Float) (kvlen : Option (List t.Scalar))
        (tile_to_req : Option (List ℤ)) (n : ℕ) (cost_req cost_tile : List t.Scalar)
        → Keeps P (enforce x w slots kv_list kvlen tile_to_req n cost_req cost_tile)
    unfolding enforce
    enforce-Keeps w slots kv_list kvlen tile_to_req n cost_req cost_tile =
        search (action_rules, regime-Keeps, hints-Keeps row-Keeps)

    pub decide-Keeps :
        (w : World) (probe : Bool) (slots : List ℕ) (kvlen : Option (List t.Scalar))
        (kv_list : List f.Float) (tile_to_req : Option (List ℤ)) (n : ℕ)
        → Keeps P (decide x w probe slots kvlen kv_list tile_to_req n)
    unfolding decide
    decide-Keeps w probe slots kvlen kv_list tile_to_req n =
        search (action_rules, timer-Keeps, armed-Keeps, num_tasks-Keeps, enforce-Keeps) depth 12

    pub publish_step-Keeps :
        (probe : Bool) (b : Binding f)
        → (probe ≡ true → Keeps P (on_plane clear_timer))
        → Keeps P (publish_step probe b)
    unfolding publish_step
    publish_step-Keeps probe b clears = search (action_rules, push-Keeps, binding-Keeps, clears)

    pub report-Keeps : Keeps P report
    unfolding report
    report-Keeps = search action_rules

    pub resolve_r-Keeps : (w : World) → Keeps P (resolve_r w)
    unfolding resolve_r
    resolve_r-Keeps w = search (action_rules, clc_r-Keeps)
