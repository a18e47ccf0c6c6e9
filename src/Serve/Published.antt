-- ===== src/Serve/Published.antt =====
-- What `on_batch_begin` publishes of a planned step: the binding that the probe of the step is folded
-- with.
use sched_pass.Prelude.{Option, ℕ, ◌≡◌, refl, ◌∙◌, ap, Bool, false, none, some, List, length, ◌==◌}
use sched_pass.Prelude.Result.{Result, ok, zero_division}
use sched_pass.Env.{Environ}
use sched_pass.Prelude.Exec.Ensures.{
  EndsIn, Ensures, bind-Ensures, if-Ensures, state-Ensures, constant-Ensures, done-returns,
  done-Ensures, modify-Ensures, err-Ensures,
}
use sched_pass.Floats.{Floats}
use sched_pass.Torch.{Torch}
use sched_pass.Tensors.{Tensors}
use sched_pass.Serve.Batch.{kv_lengths}
use sched_pass.Serve.State.{Serve, World, Binding}
use sched_pass.Serve.Enforce.{report, publish_step, plan_step, plan_slots, binding_of}
use sched_pass.Serve.Costs.{kv_list_of}

module _ {f : Floats} where
  report-Ensures :
      {P Q : Serve f → Type 0} → ((s : Serve f) → P s → Q s) → Ensures P report (λ _. Q) (λ _. Unit)
  unfolding report
  report-Ensures {P} {Q} after = bind-Ensures {R = λ _. P} (state-Ensures (λ s h. h)) (λ s.
      if-Ensures (s.stats_every == 0) (λ _. err-Ensures zero_division (λ s' h. tt))
        (λ _. done-Ensures after))

  publish_step-Ensures :
      {C : Type 0} (probe : Bool) (b : Binding f)
      → Ensures (λ _. C) (publish_step probe b) (λ _ s. (s.binding ≡ some b) × C) (λ _. Unit)
  unfolding publish_step
  publish_step-Ensures {C} probe b =
      bind-Ensures {R = λ _ _. C} constant-Ensures (λ _.
        bind-Ensures {R = λ _ _. C} constant-Ensures (λ _. modify-Ensures _ (λ s c. (refl, c))))

module _ {f : Floats} {t : Torch} (x : Tensors f t) where
  -- What a planned step publishes for the given slots: their lengths, and the tile binding that is
  -- found in the environment.
  abbrev pub published : World → Environ → List ℕ → Binding f
  published w environ slots =
      let n = length slots in
      let bound = binding_of w environ n in
      record {
        slots = slots;
        kv_list = kv_list_of x (kv_lengths x.of_count w.batch n false) n;
        tile_to_req = bound.0;
        ntiles = bound.1;
      }

  plan_step-Ensures :
      (w : World) (probe : Bool) (slots : List ℕ) (environ : Environ)
      → Ensures
          (λ s. s.environ ≡ environ)
          (plan_step x w probe slots)
          (λ _ s. s.binding ≡ some (published w environ slots))
          (λ _. Unit)
  unfolding plan_step
  plan_step-Ensures w probe slots environ =
      bind-Ensures {R = λ (a : Serve f) _. a.environ ≡ environ} (state-Ensures (λ s h. h)) (λ a.
        let C = a.environ ≡ environ in
        bind-Ensures {R = λ _ _. C} constant-Ensures (λ _.
          bind-Ensures {R = λ _ _. C} constant-Ensures (λ _.
            bind-Ensures {R = λ _ _. C} constant-Ensures (λ _.
              bind-Ensures {R = λ _ _. C} constant-Ensures (λ _.
                bind-Ensures {R = λ _ s. (s.binding ≡ some (published w a.environ slots)) × C}
                  (publish_step-Ensures probe _)
                  (λ _.
                    report-Ensures (λ s h. h.0 ∙ ap (λ env. some (published w env slots)) h.1)))))))

  -- What planning a step from a state comes to. Without slots it does nothing; for a batch with
  -- slots, if it returns, their binding is what the state publishes.
  abbrev pub Publishes : World → Serve f → Option (List ℕ) → Result (Unit {0}) × Serve f → Type 0
  Publishes w s none r = r ≡ (ok tt, s)
  Publishes w s (some slots) r =
      EndsIn (λ _ s'. s'.binding ≡ some (published w s.environ slots)) (λ _. Unit) r

  pub plan_slots-Publishes :
      (w : World) (probe : Bool) (slots : Option (List ℕ)) (s : Serve f)
      → Publishes w s slots (plan_slots x w probe slots s)
  unfolding plan_slots
  plan_slots-Publishes w probe none s = done-returns s
  plan_slots-Publishes w probe (some slots) s =
      (plan_step-Ensures w probe slots s.environ).ends s refl
