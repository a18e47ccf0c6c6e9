-- ===== src/Serve/Valid.antt =====
-- The plane that the process holds, under any sequence of calls of the hooks.
use sched_pass.Prelude.{ℕ, ◌≡◌, Bool, true, none, List, inl, inr, Bool-cases}
use sched_pass.Prelude.Result.{Result, ok, err}
use sched_pass.Prelude.Exec.{modify}
use sched_pass.Prelude.Exec.Keeps.{
  Keeps, modify-Keeps, bind-Keeps, bind_lift-Keeps, lift-Keeps, state-Keeps,
}
use sched_pass.Floats.{Floats}
use sched_pass.Torch.{Torch}
use sched_pass.Tensors.{Tensors}
use sched_pass.Rt.Plane.{SchedPlane, make_plane}
use sched_pass.Rt.Plane.Methods.{Method, run}
use sched_pass.Rt.Plane.Valid.{IsValid, run-IsValid, made-IsValid}
use sched_pass.Serve.State.{Serve, World, Binding, on_plane}
use sched_pass.Serve.Plane.{arm, new_plane, ensure_plane}
use sched_pass.Serve.Probe.{fold_probe}
use sched_pass.Serve.Enforce.{formats}
use sched_pass.Serve.Enforce.Stable.{OnPlane, on_plane-Keeps}
use sched_pass.Env.{is_set}
use sched_pass.Serve.Whole.{Whole, on_batch_begin-Keeps, on_batch_end-Keeps, ensure_plane-Keeps}
use sched_pass.Serve.Hooks.{
  Site, moe_arm, begin, end, is_seen, Process, before, after, before_init, disarmed, caught,
  arm_moe, hook_error, has_mode, is_one,
}

-- The plane, where the process has one, is valid.
abbrev pub HasValidPlane : (f : Floats) → Serve f → Type 0
HasValidPlane f s = OnPlane IsValid s.plane

module _ {f : Floats} {t : Torch} (x : Tensors f t) where
  method-Keeps : (m : Method (formats x)) → Keeps (HasValidPlane f) (on_plane (run (formats x) m))
  method-Keeps m = on_plane-Keeps IsValid (run (formats x) m) (run-IsValid (formats x) m)

  new_plane-Keeps : (w : World) → Keeps (HasValidPlane f) (new_plane w)
  unfolding new_plane
  new_plane-Keeps w = bind-Keeps _ _ state-Keeps (λ s. bind-Keeps _ _ (lift-Keeps _) (λ n.
      bind_lift-Keeps (make_plane n) _ (λ p e.
        bind-Keeps _ _ (lift-Keeps _) (λ base. modify-Keeps _ (λ s' h. made-IsValid n p e)))))

  arm-Keeps : (w : World) (p : SchedPlane) → Keeps (HasValidPlane f) (modify (arm w p))
  unfolding arm
  arm-Keeps w p = modify-Keeps (arm w p) (λ s h. h)

  fold_probe-Keeps : (b : Binding f) (cyc : List ℕ) → Keeps (HasValidPlane f) (fold_probe b cyc)
  unfolding fold_probe
  fold_probe-Keeps b cyc = bind-Keeps _ _ (lift-Keeps _) (λ r. modify-Keeps _ (λ s h. h))

  HasValidPlane-Whole : Whole x (HasValidPlane f)
  HasValidPlane-Whole = record {
    stable = record {
      method = λ m _. method-Keeps m;
      armed = λ b s h. h;
      order_n = λ n s h. h;
      binding = λ b s h. h;
      clc_r = λ r s h. h;
    };
    method = method-Keeps;
    new_plane_keeps = new_plane-Keeps;
    arm_keeps = arm-Keeps;
    cycles = λ c. modify-Keeps _ (λ s h. h);
    pending = λ c. modify-Keeps _ (λ s h. h);
    marked = λ c. modify-Keeps _ (λ s h. h);
    inflight = λ c. modify-Keeps _ (λ s h. h);
    folded = fold_probe-Keeps;
  }

  -- A call of a hook by SGLang, and what it leaves of the process.
  pub data Call (p p' : Process f) : Type 0 where
    begun : (moe_cap : Result Bool) (w : World) → p' ≡ before x moe_cap w p → Call p p'
    ended : (w : World) → p' ≡ after w p → Call p p'
    initialised : (w : World) → p' ≡ before_init w p → Call p p'

  -- The states that calls of the hooks lead to, in any order.
  pub data Reach (p : Process f) : Process f → Type 0 where
    here : Reach p p
    next : {q r : Process f} → Reach p q → Call q r → Reach p r

  caught-valid :
      {A : Type 0} (site : Site) (p : Process f) (r : Result A × Serve f)
      → HasValidPlane f r.1
      → HasValidPlane f (caught site p r).serve
  unfolding caught hook_error
  caught-valid site p (ok _, s) h = h
  caught-valid site p (err _, s) h = elim (Bool-cases (is_seen p.hook_err_seen site)) [
    | inr e ↦ rw e h
    | inl e ↦ elim (Bool-cases (is_set s.environ "SCHED_DEBUG")) [
      | inl e' ↦ rw (e, e') h
      | inr e' ↦ rw (e, e') h
    ]
  ]

  arm_moe-valid :
      (moe_cap : Result Bool) (p : Process f)
      → HasValidPlane f p.serve
      → HasValidPlane f (arm_moe moe_cap p).serve
  unfolding arm_moe
  arm_moe-valid moe_cap p h = elim (Bool-cases p.moe_armed) [
    | inl e ↦ rw e h
    | inr e ↦ rw e (caught-valid moe_arm (record p { moe_armed = true }) (moe_cap, p.serve) h)
  ]

  before-valid :
      (moe_cap : Result Bool) (w : World) (p : Process f)
      → HasValidPlane f p.serve
      → HasValidPlane f (before x moe_cap w p).serve
  unfolding before
  before-valid moe_cap w p h = elim (Bool-cases (is_one p.serve.environ "SCHED_HOOKS_NOOP")) [
    | inl e ↦ rw e h
    | inr e ↦ elim (Bool-cases (has_mode w (arm_moe moe_cap p))) [
      | inl e' ↦
          rw (e, e')
            (caught-valid begin (arm_moe moe_cap p) _ (
              (on_batch_begin-Keeps x HasValidPlane-Whole w (modify-Keeps _ (λ s h. h))).kept
                (arm_moe moe_cap p).serve (arm_moe-valid moe_cap p h)))
      | inr e' ↦ rw (e, e') (arm_moe-valid moe_cap p h)
    ]
  ]

  after-valid :
      (w : World) (p : Process f) → HasValidPlane f p.serve → HasValidPlane f (after w p).serve
  unfolding after
  after-valid w p h = elim (Bool-cases (is_one p.serve.environ "SCHED_HOOKS_NOOP")) [
    | inl e ↦ rw e h
    | inr e ↦ elim (Bool-cases (has_mode w p)) [
      | inl e' ↦
          rw (e, e')
            (caught-valid end p _ ((on_batch_end-Keeps x HasValidPlane-Whole w).kept p.serve h))
      | inr e' ↦ rw (e, e') h
    ]
  ]

  disarmed-valid :
      (r : Result (Unit {0}) × Serve f) → HasValidPlane f r.1 → HasValidPlane f (disarmed r)
  unfolding disarmed
  disarmed-valid (ok _, s) h = h
  disarmed-valid (err _, s) h = h

  before_init-valid :
      (w : World) (p : Process f)
      → HasValidPlane f p.serve
      → HasValidPlane f (before_init w p).serve
  unfolding before_init
  before_init-valid w p h =
      disarmed-valid (ensure_plane w 1 p.serve)
        ((ensure_plane-Keeps x HasValidPlane-Whole w 1).kept p.serve h)

  Call-valid : {p p' : Process f} → Call p p' → HasValidPlane f p.serve → HasValidPlane f p'.serve
  Call-valid {p} (begun moe_cap w e) h = rw e (before-valid moe_cap w p h)
  Call-valid {p} (ended w e) h = rw e (after-valid w p h)
  Call-valid {p} (initialised w e) h = rw e (before_init-valid w p h)

  Reach-valid : {p p' : Process f} → Reach p p' → HasValidPlane f p.serve → HasValidPlane f p'.serve
  Reach-valid here h = h
  Reach-valid (next r c) h = Call-valid c (Reach-valid r h)

  -- From a process without a plane, whatever batches the hooks are called with, in whatever order,
  -- and whether they return or catch an exception: the plane of the process, if it has one by then,
  -- satisfies the invariant of the control plane. Its tables fit their windows, its device tensors
  -- have an entry for each task, and the arena's generation word is its generation, up to the last
  -- generation that fits the word.
  pub Reach-IsValid :
      {p p' : Process f} → Reach p p' → p.serve.plane ≡ none → OnPlane IsValid p'.serve.plane
  Reach-IsValid r start = Reach-valid r (rw start tt)
