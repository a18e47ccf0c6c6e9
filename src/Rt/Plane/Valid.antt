-- ===== src/Rt/Plane/Valid.antt =====
-- The invariant of the plane, method by method.
use sched_pass.Prelude.{
  ℕ, ◌+◌, ◌*◌, ◌≤◌, ◌<◌, ◌≡◌, ◌∙◌, Option, none, some, List, [], ◌∷◌, length, arith, inl, inr, ◌⊎◌,
  sym, subst, Option-cases, dec_lt, range, length-append, length-take, length-drop,
  length-range_from, length-replicate, min, take, drop,
}
use sched_pass.Prelude.Result.{Returns, ok, ok_injective}
use sched_pass.Rt.Memory.{u32_at}
use sched_pass.Rt.Memory.Laws.{u32_at-store_self, u32_at-copy, u32_at-same, u32_at-zero}
use sched_pass.Rt.Plane.{
  SchedPlane, DeviceTensor, FloatFormat, ctrl_off, timer_off, order_off, queue_off, max_tasks_limit,
  set_order, reset_order, set_order_size, install_order, push, publish, clear_timer,
  use_device_timer, use_device_order, then_keeps, push_writes, store_all, reset_queue, make_plane,
  fresh,
}
use sched_pass.Rt.Plane.Windows.{
  WritesOnly, set_order-WritesOnly, clear_timer-WritesOnly, reset_queue-WritesOnly,
  use_device_timer-WritesOnly, use_device_order-WritesOnly, stamped, push_below, push_at_limit,
}
use sched_pass.Rt.Plane.Mirror.{
  Keeps, set_order_size-Keeps, set_num_tasks-Keeps, set_timer_enabled-Keeps, set_row-Keeps,
  set_rows-Keeps, set_lambda-Keeps,
}
use sched_pass.Rt.Plane.Methods.{
  Method, run, set_order_of, reset, install, order_size, num_tasks, timer_enabled, row, rows,
  lambda, publish_all, clear, device_timer, device_order, prime_queue,
}

abbrev pub HasLength : ℕ → Option DeviceTensor → Type 0
HasLength n none = Unit
HasLength n (some d) = length d.items ≡ n

-- The tables fit their windows, the device tensors have an entry for each task, and the generation
-- word of the arena is the plane's, up to the last generation that fits the word.
pub record IsValid (p : SchedPlane) : Type 0 where
  pub fits : p.size ≤ max_tasks_limit
  pub published : p.generation < 4294967296 → u32_at p.arena ctrl_off ≡ p.generation
  pub timer_rows : HasLength p.size p.timer_dev
  pub order_rows : HasLength p.size p.order_dev

Keeps-IsValid : {p p' : SchedPlane} → Keeps p p' → IsValid p → IsValid p'
Keeps-IsValid {p} {p'} k v = record {
  fits = rw k.size v.fits;
  published = λ h.
      u32_at-same p.arena p'.arena ctrl_off (λ y _ _. k.arena y)
      ∙ rw k.generation (v.published (rw k.generation at h));
  timer_rows = rw (k.size, k.timer_dev) v.timer_rows;
  order_rows = rw (k.size, k.order_dev) v.order_rows;
}

-- The generation word stays where a method writes elsewhere.
word_kept :
    (off n : ℕ) (p p' : SchedPlane)
    → (off + n ≤ ctrl_off) ⊎ (ctrl_off + 4 ≤ off)
    → WritesOnly off n p p'
    → u32_at p'.arena ctrl_off ≡ u32_at p.arena ctrl_off
word_kept off n p p' away h = u32_at-same p.arena p'.arena ctrl_off (λ y a b. h y (omega arith))

pub set_order_rest :
    (tasks : List ℕ) (p : SchedPlane)
    → ((set_order tasks p).1.size ≡ p.size)
      × ((set_order tasks p).1.generation ≡ p.generation)
      × ((set_order tasks p).1.timer_dev ≡ p.timer_dev)
unfolding set_order
set_order_rest tasks p = ground arith

set_order_rows :
    (tasks : List ℕ) (p : SchedPlane)
    → HasLength p.size p.order_dev
    → HasLength p.size (set_order tasks p).1.order_dev
unfolding set_order
set_order_rows tasks p h = elim (Option-cases p.order_dev) [
  | inl e ↦ rw (e, set_order) (rw e tt)
  | inr (dev, e) ↦
      let n = min (length tasks) p.size in
      let size : length dev.items ≡ p.size = rw e at h in
      rw (e, set_order)
        (omega (
          arith,
          length-append (take n tasks) (drop n dev.items),
          length-take n tasks,
          length-drop n dev.items,
        ))
]

set_order-IsValid : (tasks : List ℕ) (p : SchedPlane) → IsValid p → IsValid (set_order tasks p).1
set_order-IsValid tasks p v =
    let (size, gen, timers) = set_order_rest tasks p in
    let fits = v.fits in
    record {
      fits = rw size v.fits;
      published = λ h.
          word_kept order_off (4 * p.size) p (set_order tasks p).1 (omega arith)
            (set_order-WritesOnly tasks p)
          ∙ v.published (rw gen at h)
          ∙ sym gen;
      timer_rows = rw (size, timers) v.timer_rows;
      order_rows = rw size (set_order_rows tasks p v.order_rows);
    }

clear_timer-IsValid : (p : SchedPlane) → IsValid p → IsValid (clear_timer p).1
unfolding clear_timer
clear_timer-IsValid p v = elim (Option-cases p.timer_dev) [
  | inl e ↦
      let kept =
        word_kept timer_off (8 * p.size) p (clear_timer p).1 (omega arith)
          (clear_timer-WritesOnly p) in
      rw (e, clear_timer)
        (record {
          fits = v.fits;
          published = λ h. (rw (e, clear_timer) at kept) ∙ v.published h;
          timer_rows = rw e tt;
          order_rows = v.order_rows;
        })
  | inr (dev, e) ↦
      rw (e, clear_timer)
        (record {
          fits = v.fits;
          published = v.published;
          timer_rows = length-replicate p.size 0;
          order_rows = v.order_rows;
        })
]

publish_word :
    (p : SchedPlane)
    → u32_at (publish (stamped p)).1.arena ctrl_off ≡ u32_at (stamped p).ctrl_host 0
unfolding publish push_writes store_all
publish_word p =
    u32_at-copy _ (stamped p).ctrl_host ctrl_off 0 4 0 ctrl_off 0 (omega arith) (omega arith)
      (omega arith)

push-IsValid : (p : SchedPlane) → IsValid p → IsValid (push p).1
unfolding publish
push-IsValid p v = elim (dec_lt (p.generation + 1) 4294967296) [
  | yes below ↦ rw (push_below p below) (record {
    fits = v.fits;
    published = λ h. publish_word p ∙ u32_at-store_self p.ctrl_host 0 (p.generation + 1) below;
    timer_rows = v.timer_rows;
    order_rows = v.order_rows;
  })
  | no above ↦ rw (push_at_limit p (omega arith)) (record {
    fits = v.fits;
    published = λ h. absurd (above h);
    timer_rows = v.timer_rows;
    order_rows = v.order_rows;
  })
]

use_device_timer-IsValid :
    (ptr : ℕ) (p : SchedPlane) → IsValid p → IsValid (use_device_timer ptr p).1
unfolding use_device_timer
use_device_timer-IsValid ptr p v = record {
  fits = v.fits;
  published = λ h.
      word_kept timer_off 8 p (use_device_timer ptr p).1 (omega arith)
        (use_device_timer-WritesOnly ptr p)
      ∙ v.published h;
  timer_rows = elim (Option-cases p.timer_dev) [
    | inl e ↦ rw e (length-replicate p.size 0)
    | inr (dev, e) ↦ rw e (rw e at v.timer_rows)
  ];
  order_rows = v.order_rows;
}

use_device_order-IsValid :
    (ptr : ℕ) (p : SchedPlane) → IsValid p → IsValid (use_device_order ptr p).1
unfolding use_device_order
use_device_order-IsValid ptr p v = record {
  fits = v.fits;
  published = λ h.
      word_kept order_off 8 p (use_device_order ptr p).1 (omega arith)
        (use_device_order-WritesOnly ptr p)
      ∙ v.published h;
  timer_rows = v.timer_rows;
  order_rows = elim (Option-cases p.order_dev) [
    | inl e ↦ rw e (length-range_from 0 p.size)
    | inr (dev, e) ↦ rw e (rw e at v.order_rows)
  ];
}

reset_queue_rest :
    (n : ℕ) (p : SchedPlane)
    → ((reset_queue n p).1.size ≡ p.size)
      × ((reset_queue n p).1.generation ≡ p.generation)
      × ((reset_queue n p).1.timer_dev ≡ p.timer_dev)
      × ((reset_queue n p).1.order_dev ≡ p.order_dev)
unfolding reset_queue
reset_queue_rest n p = ground arith

reset_queue-IsValid : (n : ℕ) (p : SchedPlane) → IsValid p → IsValid (reset_queue n p).1
reset_queue-IsValid n p v =
    let (size, gen, timers, orders) = reset_queue_rest n p in
    record {
      fits = rw size v.fits;
      published = λ h.
          word_kept queue_off 4 p (reset_queue n p).1 (omega arith) (reset_queue-WritesOnly n p)
          ∙ v.published (rw gen at h)
          ∙ sym gen;
      timer_rows = rw (size, timers) v.timer_rows;
      order_rows = rw (size, orders) v.order_rows;
    }

pub fresh-IsValid : (n : ℕ) → n ≤ max_tasks_limit → IsValid (fresh n)
fresh-IsValid n h = record {
  fits = h;
  published = λ _. u32_at-zero ctrl_off;
  timer_rows = tt;
  order_rows = tt;
}

pub make_plane_eq :
    (n : ℕ)
    → n ≤ max_tasks_limit
    → make_plane n ≡ ok (publish (stamped (reset_order (fresh n)).1)).1
unfolding make_plane
make_plane_eq n h = ground arith

first_push-IsValid :
    (n : ℕ) → n ≤ max_tasks_limit → IsValid (publish (stamped (reset_order (fresh n)).1)).1
unfolding reset_order
first_push-IsValid n h =
    let p = (set_order (range n) (fresh n)).1 in
    let (_, gen, _) = set_order_rest (range n) (fresh n) in
    let v = push-IsValid p (set_order-IsValid (range n) (fresh n) (fresh-IsValid n h)) in
    let below : p.generation + 1 < 4294967296 = omega arith in rw (push_below p below) at v

-- What the constructor returns is valid.
pub made-IsValid : (n : ℕ) (p : SchedPlane) → make_plane n ≡ ok p → IsValid p
unfolding make_plane
made-IsValid n p e = elim (dec_lt max_tasks_limit n) [
  | yes above ↦ absurd (ground arith)
  | no below ↦
      let h : n ≤ max_tasks_limit = omega arith in
      subst IsValid (ok_injective (sym (make_plane_eq n h) ∙ e)) (first_push-IsValid n h)
]

module _ (f : FloatFormat) where
  -- Every method keeps the plane valid, whether it returns or raises.
  pub run-IsValid : (m : Method f) (p : SchedPlane) → IsValid p → IsValid (run f m p).1
  unfolding run reset_order install_order
  run-IsValid (set_order_of tasks) p v = set_order-IsValid tasks p v
  run-IsValid reset p v = set_order-IsValid (range p.size) p v
  run-IsValid (install tasks n) p v =
      then_keeps IsValid (set_order tasks) (set_order_size n) p (set_order-IsValid tasks p v)
        (λ q. Keeps-IsValid (set_order_size-Keeps n q))
  run-IsValid (order_size n) p v = Keeps-IsValid (set_order_size-Keeps n p) v
  run-IsValid (num_tasks n) p v = Keeps-IsValid (set_num_tasks-Keeps n p) v
  run-IsValid (timer_enabled on) p v = Keeps-IsValid (set_timer_enabled-Keeps on p) v
  run-IsValid (row i q tau hint) p v = Keeps-IsValid (set_row-Keeps f i q tau hint p) v
  run-IsValid (rows q tau hint n) p v = Keeps-IsValid (set_rows-Keeps f q tau hint n p) v
  run-IsValid (lambda bw l2 smem comp) p v = Keeps-IsValid (set_lambda-Keeps f bw l2 smem comp p) v
  run-IsValid publish_all p v = push-IsValid p v
  run-IsValid clear p v = clear_timer-IsValid p v
  run-IsValid (prime_queue n) p v = reset_queue-IsValid n p v
  run-IsValid (device_timer ptr) p v = use_device_timer-IsValid ptr p v
  run-IsValid (device_order ptr) p v = use_device_order-IsValid ptr p v

  pub run_all : List (Method f) → SchedPlane → SchedPlane
  run_all [] p = p
  run_all (m ∷ ms) p = run_all ms (run f m p).1

  run_all-IsValid : (ms : List (Method f)) (p : SchedPlane) → IsValid p → IsValid (run_all ms p)
  unfolding run_all
  run_all-IsValid [] p v = v
  run_all-IsValid (m ∷ ms) p v = run_all-IsValid ms (run f m p).1 (run-IsValid m p v)

  -- The plane that the constructor makes is valid, and stays so under any calls of its methods.
  pub make_plane-IsValid :
      (max_tasks : ℕ) (ms : List (Method f))
      → max_tasks ≤ max_tasks_limit
      → Returns (λ p. IsValid (run_all ms p)) (make_plane max_tasks)
  make_plane-IsValid max_tasks ms h = rw (make_plane_eq max_tasks h) (
      run_all-IsValid ms (publish (stamped (reset_order (fresh max_tasks)).1)).1
        (first_push-IsValid max_tasks h))
