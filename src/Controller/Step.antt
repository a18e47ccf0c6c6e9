-- ===== src/Controller/Step.antt =====
-- `SchedControlPlane.step`: what the kernel reads after it.
use sched_pass.Prelude.{
  ℕ, ◌+◌, ◌≤◌, ◌<◌, ◌≡◌, refl, sym, subst, ◌∙◌, inl, inr, true, Option, none, some, List, [], ◌∷◌,
  length, ltb, get_or, range, arith, Perm, Bool-cases, AllBelow-perm, AllBelow-range_from,
  length-perm, length-range_from,
}
use sched_pass.Prelude.Result.{ok, Returns, Returns-ok}
use sched_pass.Floats.{Floats}
use sched_pass.Dict.{Keys}
use sched_pass.Rt.Plane.{SchedPlane}
use sched_pass.Rt.Plane.Valid.{IsValid}
use sched_pass.Rt.Plane.Table.{order_entry}
use sched_pass.Rt.Plane.Arm.{num_tasks_word, arm_lem}
use sched_pass.Controller.{SchedControlPlane, observe_one, observe, order, install, step}
use sched_pass.Controller.Order.{CanOrder, HasOrder, order-perm}

module _ (f : Floats) (k : Keys) where
  open f use {Float}
  open k use {Key}

  observe_one-last_order :
      (rid : Key) (ln cy : Float) (c : SchedControlPlane f k)
      → ((observe_one f k rid ln cy c).last_order ≡ c.last_order)
        × ((observe_one f k rid ln cy c).policy ≡ c.policy)
  unfolding observe_one
  observe_one-last_order rid ln cy c = elim (Bool-cases (f.fle cy f.zero_float)) [
    | inl e ↦ rw e (refl, refl)
    | inr e ↦ rw e (refl, refl)
  ]

  -- `observe` leaves the last order and the policy.
  observe-last_order :
      (rids : List Key) (kv_lens cycles : List Float) (c : SchedControlPlane f k)
      → ((observe f k rids kv_lens cycles c).last_order ≡ c.last_order)
        × ((observe f k rids kv_lens cycles c).policy ≡ c.policy)
  unfolding observe
  observe-last_order [] kv_lens cycles c = (refl, refl)
  observe-last_order (rid ∷ rids) [] cycles c = (refl, refl)
  observe-last_order (rid ∷ rids) (ln ∷ kv_lens) [] c = (refl, refl)
  observe-last_order (rid ∷ rids) (ln ∷ kv_lens) (cy ∷ cycles) c =
      let (l, p) = observe_one-last_order rid ln cy c in
      let (l', p') = observe-last_order rids kv_lens cycles (observe_one f k rid ln cy c) in
      (l' ∙ l, p' ∙ p)

  -- the state in which `step` calls `order`
  abbrev observed :
      List Key → List Float → Option (List Float) → SchedControlPlane f k → SchedControlPlane f k
  observed rids kv_lens none c = c
  observed rids kv_lens (some cycles) c = observe f k rids kv_lens cycles c

  observed-HasOrder :
      (rids : List Key) (kv_lens : List Float) (cycles : Option (List Float))
      (c : SchedControlPlane f k)
      → HasOrder f k c
      → HasOrder f k (observed rids kv_lens cycles c)
        × ((observed rids kv_lens cycles c).policy ≡ c.policy)
  observed-HasOrder rids kv_lens none c h = (h, refl)
  observed-HasOrder rids kv_lens (some cycles) c h =
      let (l, p) = observe-last_order rids kv_lens cycles c in (rw l h, p)

  -- `step` with an order and an install that return
  step_eq :
      (rids : List Key) (kv_lens : List Float) (cycles deadlines elapsed : Option (List Float))
      (c : SchedControlPlane f k) (p : SchedPlane) {tasks : List ℕ}
      → (order f k rids kv_lens deadlines elapsed (observed rids kv_lens cycles c)).0 ≡ ok tasks
      → (install f k tasks p).0 ≡ ok tt
      → step f k rids kv_lens cycles deadlines elapsed c p ≡ (
        ok tasks,
        (order f k rids kv_lens deadlines elapsed (observed rids kv_lens cycles c)).1,
        (install f k tasks p).1,
      )
  unfolding step
  step_eq rids kv_lens none deadlines elapsed c p e e' = rw (step, e, e') refl
  step_eq rids kv_lens (some cycles) deadlines elapsed c p e e' = rw (step, e, e') refl

  -- `step` on a valid plane without the device channel, for a batch that fits the plane and a
  -- policy that can order it, returns a permutation of the batch; the kernel then reads the size of
  -- the batch as the number of tasks and the returned order in the table, and the controller keeps
  -- it as the last order.
  pub step-order_entry :
      (rids : List Key) (kv_lens : List Float) (cycles deadlines elapsed : Option (List Float))
      (c : SchedControlPlane f k) (p : SchedPlane)
      → HasOrder f k c
      → length rids ≡ length kv_lens
      → CanOrder f c.policy deadlines elapsed (length kv_lens)
      → IsValid p
      → p.order_dev ≡ none
      → length kv_lens ≤ p.size
      → p.generation + 1 < 4294967296
      → let (r, c', p') = step f k rids kv_lens cycles deadlines elapsed c p in
        Returns
          (λ tasks.
            Perm tasks (range (length kv_lens))
            × (c'.last_order ≡ tasks)
            × (num_tasks_word p' ≡ length kv_lens)
            × ((i : ℕ) → i < length kv_lens → order_entry p' i ≡ get_or tasks i 0))
          r
  unfolding install
  step-order_entry rids kv_lens cycles deadlines elapsed c p last h can v none_yet fits g =
      let c1 = observed rids kv_lens cycles c in
      let (last1, policy) = observed-HasOrder rids kv_lens cycles c last in
      let can1 : CanOrder f c1.policy deadlines elapsed (length kv_lens) =
        subst (λ q. CanOrder f q deadlines elapsed (length kv_lens)) (sym policy) can in
      let (tasks, e, (perm, kept)) =
        Returns-ok (order f k rids kv_lens deadlines elapsed c1).0
          (order-perm f k rids kv_lens deadlines elapsed c1 last1 h can1) in
      let n = length kv_lens in
      let bound = v.fits in
      let size : length tasks ≡ n = length-perm perm ∙ length-range_from 0 n in
      let (done, word, table) =
        arm_lem tasks (length tasks) p v none_yet
          (AllBelow-perm _ perm (AllBelow-range_from _ 0 n (omega arith))) (omega arith) g in
      rw (step_eq rids kv_lens cycles deadlines elapsed c p e done) (
        perm,
        kept,
        word ∙ size,
        λ i k.
            let inside : ltb i (length tasks) ≡ true = ground arith in
            rw inside at (table i (omega arith)),
      )
