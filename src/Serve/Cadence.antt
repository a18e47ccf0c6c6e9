-- ===== src/Serve/Cadence.antt =====
-- The cadence of `on_batch_begin`: how often a step is planned.
use sched_pass.Prelude.{
  Option, ℕ, zero, suc, ◌+◌, ◌-◌, ◌%◌, ◌<◌, ◌≡◌, refl, sym, ◌∙◌, ap, ap₂, dec_lt, true, false, ◌⊎◌,
  inl, inr, Bool-cases, Option-cases, arith,
}
use Prim.Native.String.{String}
use sched_pass.Prelude.Result.{ok}
use sched_pass.Env.{Environ}
use sched_pass.Controller.{SchedControlPlane}
use native.Mathlib.Nat.{mod-add-mod, mod-lt, mod_self, zero-mod}
use sched_pass.Prelude.Exec.{◌>>=◌}
use sched_pass.Prelude.Exec.Keeps.{Keeps, modify-Keeps, bind-Keeps, lift-Keeps, state-Keeps}
use sched_pass.Floats.{Floats}
use sched_pass.Torch.{Torch}
use sched_pass.Tensors.{Tensors}
use sched_pass.Rt.Plane.{Action}
use sched_pass.Rt.Plane.Methods.{run}
use sched_pass.Serve.Batch.{slot_indices}
use sched_pass.Serve.State.{initial_state, slot_keys, Serve, World, on_plane}
use sched_pass.Serve.Plane.{new_plane, arm}
use sched_pass.Serve.Probe.{fold_probe}
use sched_pass.Serve.Enforce.{formats, on_batch_begin, is_planned, is_probe}
use sched_pass.Serve.Published.{Publishes, plan_slots-Publishes}
use sched_pass.Serve.Whole.{Whole, plan_slots-Keeps}

-- Every number has a multiple of m among the m that start with it.
next_multiple : (n m : ℕ) → 0 < m → (k : ℕ) × (k < m) × ((n + k) % m ≡ 0)
next_multiple n m h = elim (dec_lt 0 (n % m)) [
  | no none_left ↦ (
    0,
    h,
    sym (mod-add-mod n m 0)
        ∙ ap (λ (r : ℕ). (r + 0) % m) (let z : n % m ≡ 0 = omega arith in z)
        ∙ zero-mod m,
  )
  | yes some_left ↦
      let below = mod-lt n h in
      let whole : n % m + (m - n % m) ≡ m = omega arith in
      (
        m - n % m,
        omega arith,
        sym (mod-add-mod n m (m - n % m)) ∙ ap (λ (r : ℕ). r % m) whole ∙ mod_self m,
      )
]

module _ {f : Floats} {t : Torch} (x : Tensors f t) where
  module _ (n every : ℕ) where
    -- The count of the steps, and the cadence, which no hook changes.
    abbrev AtStep : Serve f → Type 0
    AtStep s = (s.step ≡ n) × (s.plan_every ≡ every)

    on_plane-AtStep : {A : Type 0} (m : Action A) → Keeps AtStep (on_plane m)
    unfolding on_plane
    on_plane-AtStep m = record {
      kept = λ s h. elim (Option-cases s.plane) [
        | inl e ↦ rw (e, on_plane) h
        | inr (p, e) ↦ rw (e, on_plane) h
      ];
    }

    AtStep-Whole : Whole x AtStep
    unfolding new_plane arm fold_probe
    AtStep-Whole = record {
      stable = record {
        method = λ m _. on_plane-AtStep (run (formats x) m);
        armed = λ b s h. h;
        order_n = λ n s h. h;
        binding = λ b s h. h;
        clc_r = λ r s h. h;
      };
      method = λ m. on_plane-AtStep (run (formats x) m);
      new_plane_keeps = λ w. bind-Keeps _ _ state-Keeps (λ s. bind-Keeps _ _ (lift-Keeps _) (λ k.
          bind-Keeps _ _ (lift-Keeps _)
            (λ p. bind-Keeps _ _ (lift-Keeps _) (λ base. modify-Keeps _ (λ s' h. h)))));
      arm_keeps = λ w p. modify-Keeps (arm w p) (λ s h. h);
      cycles = λ c. modify-Keeps _ (λ s h. h);
      pending = λ c. modify-Keeps _ (λ s h. h);
      marked = λ c. modify-Keeps _ (λ s h. h);
      inflight = λ c. modify-Keeps _ (λ s h. h);
      folded = λ b cyc. bind-Keeps _ _ (lift-Keeps _) (λ r. modify-Keeps _ (λ s h. h));
    }

  -- Every call counts one step, also one that raises.
  on_batch_begin-step :
      (w : World) (s : Serve f)
      → ((on_batch_begin x w s).1.step ≡ s.step + 1)
        × ((on_batch_begin x w s).1.plan_every ≡ s.plan_every)
  unfolding on_batch_begin ◌>>=◌
  on_batch_begin-step w s = elim (Bool-cases (is_planned s)) [
    | inl e ↦ rw e (
        (plan_slots-Keeps x (AtStep-Whole (s.step + 1) s.plan_every) w (is_probe s)
            (slot_indices w.batch)).kept
          (record s { step = s.step + 1 }) (refl, refl))
    | inr e ↦ rw e (refl, refl)
  ]

  -- The state after the first k of the calls.
  unfoldable pub begins : (ℕ → World) → ℕ → Serve f → Serve f
  begins ws zero s = s
  begins ws (suc k) s = (on_batch_begin x (ws k) (begins ws k s)).1

  begins-step :
      (ws : ℕ → World) (k : ℕ) (s : Serve f)
      → ((begins ws k s).step ≡ s.step + k) × ((begins ws k s).plan_every ≡ s.plan_every)
  unfolding begins
  begins-step ws zero s = (omega arith, refl)
  begins-step ws (suc k) s =
      let (n, e) = begins-step ws k s in
      let (n', e') = on_batch_begin-step (ws k) (begins ws k s) in (omega arith, e' ∙ e)

  -- A call that plans its step counts it and plans from the counted state.
  abbrev pub IsPlanned : World → Serve f → Type 0
  IsPlanned w s =
      Publishes x w (record s { step = s.step + 1 }) (slot_indices w.batch) (on_batch_begin x w s)

  -- A call that only counts, and disarms the timer.
  abbrev pub IsIdle : World → Serve f → Type 0
  IsIdle w s = on_batch_begin x w s ≡ (ok tt, record s { step = s.step + 1; timer_armed = false })

  on_batch_begin-IsPlanned : (w : World) (s : Serve f) → is_planned s ≡ true → IsPlanned w s
  unfolding on_batch_begin ◌>>=◌
  on_batch_begin-IsPlanned w s e = rw e (
      plan_slots-Publishes x w (is_probe s) (slot_indices w.batch) (record s { step = s.step + 1 }))

  on_batch_begin-IsIdle : (w : World) (s : Serve f) → is_planned s ≡ false → IsIdle w s
  unfolding on_batch_begin ◌>>=◌
  on_batch_begin-IsIdle w s e = rw e refl

  -- Call k plans its step, as its count demands.
  abbrev pub PlansAt : (ℕ → World) → Serve f → ℕ → Type 0
  PlansAt ws s k = (is_planned (begins ws k s) ≡ true) × IsPlanned (ws k) (begins ws k s)

  abbrev pub IdlesAt : (ℕ → World) → Serve f → ℕ → Type 0
  IdlesAt ws s k = (is_planned (begins ws k s) ≡ false) × IsIdle (ws k) (begins ws k s)

  planned_or_idle : (ws : ℕ → World) (s : Serve f) (k : ℕ) → PlansAt ws s k ⊎ IdlesAt ws s k
  planned_or_idle ws s k = elim (Bool-cases (is_planned (begins ws k s))) [
    | inl e ↦ inl (e, on_batch_begin-IsPlanned (ws k) (begins ws k s) e)
    | inr e ↦ inr (e, on_batch_begin-IsIdle (ws k) (begins ws k s) e)
  ]

  -- Whatever the batches are and whatever the calls of `on_batch_begin` raise, among any `plan_every`
  -- in a row there is one whose step is planned, and every call does what its count demands. A call
  -- that is planned and whose batch has slots publishes their binding, with the lengths and the tile
  -- binding found for them, if it returns; one without slots counts the step and returns; and a call
  -- that is not planned counts the step, disarms the timer and returns. The cadence is positive, as
  -- `_STATE` makes it.
  pub begins-planned :
      (ws : ℕ → World) (s : Serve f)
      → 0 < s.plan_every
      → ((k : ℕ) × (k < s.plan_every) × PlansAt ws s k)
        × ((j : ℕ) → PlansAt ws s j ⊎ IdlesAt ws s j)
  unfolding is_planned
  begins-planned ws s positive =
      let (k, below, hit) = next_multiple s.step s.plan_every positive in
      let (n, e) = begins-step ws k s in
      let due : (begins ws k s).step % (begins ws k s).plan_every ≡ 0 =
        ap₂ (λ (a b : ℕ). a % b) n e ∙ hit in
      let planned : is_planned (begins ws k s) ≡ true = rw due refl in
      (
        (k, below, (planned, on_batch_begin-IsPlanned (ws k) (begins ws k s) planned)),
        planned_or_idle ws s,
      )

  initial_state-plan_every :
      (parse : String → Option ℕ) (float : String → f.Float) (ctl : SchedControlPlane f slot_keys)
      (environ : Environ) (s : Serve f)
      → initial_state parse float ctl environ ≡ ok s
      → 0 < s.plan_every
  unfolding initial_state
  initial_state-plan_every parse float ctl environ s e = ground arith

  -- So from the state at import, whatever the environment says of the cadence: a `plan_every` of 0
  -- there counts as 1.
  pub initial_state-planned :
      (parse : String → Option ℕ) (float : String → f.Float) (ctl : SchedControlPlane f slot_keys)
      (environ : Environ) (s : Serve f) (ws : ℕ → World)
      → initial_state parse float ctl environ ≡ ok s
      → ((k : ℕ) × (k < s.plan_every) × PlansAt ws s k)
        × ((j : ℕ) → PlansAt ws s j ⊎ IdlesAt ws s j)
  initial_state-planned parse float ctl environ s ws e =
      begins-planned ws s (initial_state-plan_every parse float ctl environ s e)
