-- ===== src/Rt/Plane/Issued.antt =====
-- What a step of the serving loop leaves of the plane's timer.
use sched_pass.Prelude.{
  ℕ, ◌+◌, ◌*◌, ◌≤◌, ◌<◌, ◌≡◌, refl, sym, ◌∙◌, ap₂, Option, none, some, List, [], ◌∷◌, inl, inr,
  Option-cases, arith, dec_lt, range, AllBelow, AllBelow-range_from,
}
use sched_pass.Rt.Memory.{Bytes}
use sched_pass.Rt.Memory.Laws.{Outside, u32_at-same}
use sched_pass.Rt.Plane.{
  SchedPlane, DeviceTensor, FloatFormat, timer_off, max_tasks_limit, read_timer, read_words,
  then_keeps, set_order, set_order_size, reset_order, install_order, publish,
}
use sched_pass.Rt.Plane.Windows.{push_below, push_at_limit}
use sched_pass.Rt.Plane.Mirror.{
  set_order_size-Keeps, set_num_tasks-Keeps, set_timer_enabled-Keeps, set_row-Keeps, set_rows-Keeps,
  set_lambda-Keeps,
}
use sched_pass.Rt.Plane.Methods.{
  Method, run, set_order_of, reset, install, order_size, num_tasks, timer_enabled, row, rows,
  lambda, publish_all, clear, prime_queue, device_timer, device_order, method_confined, table,
  table_off, window,
}
use sched_pass.Rt.Plane.Valid.{set_order_rest}

-- What the timer of a plane holds, as `read_timer` finds it.
pub record SameTimer (p p' : SchedPlane) : Type 0 where
  pub size : p'.size ≡ p.size
  pub timer_dev : p'.timer_dev ≡ p.timer_dev
  pub rows : (x : ℕ) → timer_off ≤ x → x < timer_off + window → p'.arena x ≡ p.arena x

pub SameTimer-refl : (p : SchedPlane) → SameTimer p p
SameTimer-refl p = record { size = refl; timer_dev = refl; rows = λ x a b. refl }

pub SameTimer-trans : {p q r : SchedPlane} → SameTimer p q → SameTimer q r → SameTimer p r
SameTimer-trans h k = record {
  size = k.size ∙ h.size;
  timer_dev = k.timer_dev ∙ h.timer_dev;
  rows = λ x a b. k.rows x a b ∙ h.rows x a b;
}

module _ (f : FloatFormat) where
  -- The methods that a step issues whatever it does; only a probe step clears the rows, and the
  -- device channels are set up with the plane.
  abbrev pub IsIssued : Method f → Type 0
  IsIssued clear = ⊥
  IsIssued (prime_queue _) = ⊥
  IsIssued (device_timer _) = ⊥
  IsIssued (device_order _) = ⊥
  IsIssued _ = Unit

  -- The methods of a step leave the size and the timer's tensor alone.
  issued_rest :
      (m : Method f) (p : SchedPlane)
      → IsIssued m
      → ((run f m p).1.size ≡ p.size) × ((run f m p).1.timer_dev ≡ p.timer_dev)
  unfolding run reset_order install_order publish
  issued_rest (set_order_of tasks) p i = let (a, _, b) = set_order_rest tasks p in (a, b)
  issued_rest reset p i = let (a, _, b) = set_order_rest (range p.size) p in (a, b)
  issued_rest (install tasks n) p i =
      then_keeps (λ q. (q.size ≡ p.size) × (q.timer_dev ≡ p.timer_dev)) (set_order tasks)
        (set_order_size n) p (let (a, _, b) = set_order_rest tasks p in (a, b))
        (λ q h. ((set_order_size-Keeps n q).size ∙ h.0, (set_order_size-Keeps n q).timer_dev ∙ h.1))
  issued_rest (order_size n) p i =
      ((set_order_size-Keeps n p).size, (set_order_size-Keeps n p).timer_dev)
  issued_rest (num_tasks n) p i =
      ((set_num_tasks-Keeps n p).size, (set_num_tasks-Keeps n p).timer_dev)
  issued_rest (timer_enabled b) p i =
      ((set_timer_enabled-Keeps b p).size, (set_timer_enabled-Keeps b p).timer_dev)
  issued_rest (row k q tau hint) p i =
      ((set_row-Keeps f k q tau hint p).size, (set_row-Keeps f k q tau hint p).timer_dev)
  issued_rest (rows q tau hint n) p i =
      ((set_rows-Keeps f q tau hint n p).size, (set_rows-Keeps f q tau hint n p).timer_dev)
  issued_rest (lambda a b c d) p i =
      ((set_lambda-Keeps f a b c d p).size, (set_lambda-Keeps f a b c d p).timer_dev)
  issued_rest publish_all p i = elim (dec_lt (p.generation + 1) 4294967296) [
    | yes below ↦ rw (push_below p below) (refl, refl)
    | no above ↦ rw (push_at_limit p (omega arith)) (refl, refl)
  ]
  issued_rest clear p i = absurd i
  issued_rest (prime_queue n) p i = absurd i
  issued_rest (device_timer n) p i = absurd i
  issued_rest (device_order n) p i = absurd i

  -- The tables of these methods lie apart from the timer's.
  apart :
      (m : Method f) (y : ℕ)
      → IsIssued m
      → timer_off ≤ y
      → y < timer_off + window
      → Outside (table_off (table f m)) window y
  apart (set_order_of tasks) y i low high = omega arith
  apart reset y i low high = omega arith
  apart (install tasks n) y i low high = omega arith
  apart (order_size n) y i low high = omega arith
  apart (num_tasks n) y i low high = omega arith
  apart (timer_enabled b) y i low high = omega arith
  apart (row k q tau hint) y i low high = omega arith
  apart (rows q tau hint n) y i low high = omega arith
  apart (lambda a b c d) y i low high = omega arith
  apart publish_all y i low high = omega arith
  apart clear y i low high = absurd i
  apart (prime_queue n) y i low high = absurd i
  apart (device_timer n) y i low high = absurd i
  apart (device_order n) y i low high = absurd i

  pub issued-SameTimer :
      (m : Method f) (p : SchedPlane)
      → IsIssued m
      → p.size ≤ max_tasks_limit
      → SameTimer p (run f m p).1
  issued-SameTimer m p i fits = record {
    size = (issued_rest m p i).0;
    timer_dev = (issued_rest m p i).1;
    rows = λ y low high. method_confined f m p fits y (apart m y i low high);
  }

read_words-same :
    (m m' : Bytes) (is : List ℕ)
    → AllBelow max_tasks_limit is
    → ((y : ℕ) → timer_off ≤ y → y < timer_off + window → m' y ≡ m y)
    → read_words m' timer_off is ≡ read_words m timer_off is
unfolding read_words
read_words-same m m' [] h same = refl
read_words-same m m' (i ∷ is) h same =
    ap₂ (λ (w : ℕ) ws. w ∷ ws)
      (ap₂ (λ (a : ℕ) (b : ℕ). a + 4294967296 * b)
        (u32_at-same m m' (timer_off + 8 * i) (λ y a b. same y (omega arith) (omega arith)))
        (u32_at-same m m' (timer_off + 8 * i + 4) (λ y a b. same y (omega arith) (omega arith))))
      (read_words-same m m' is h.1 same)

-- `read_timer`, by the parts of the plane that it reads
reading : Option DeviceTensor → Bytes → ℕ → List ℕ
reading none arena size = read_words arena timer_off (range size)
reading (some d) arena size = d.items

reading-same :
    (o : Option DeviceTensor) (m m' : Bytes) (n : ℕ)
    → n ≤ max_tasks_limit
    → ((y : ℕ) → timer_off ≤ y → y < timer_off + window → m' y ≡ m y)
    → reading o m' n ≡ reading o m n
unfolding reading
reading-same none m m' n fits same =
    read_words-same m m' (range n) (AllBelow-range_from max_tasks_limit 0 n (omega arith)) same
reading-same (some d) m m' n fits same = refl

read_timer-eq : (p : SchedPlane) → read_timer p ≡ reading p.timer_dev p.arena p.size
unfolding read_timer reading
read_timer-eq p = elim (Option-cases p.timer_dev) [ inl e ↦ rw e | inr (d, e) ↦ rw e ]

-- `read_timer` then reads the same.
pub read_timer-same :
    (p p' : SchedPlane) → p.size ≤ max_tasks_limit → SameTimer p p' → read_timer p' ≡ read_timer p
read_timer-same p p' fits h =
    read_timer-eq p'
    ∙ ap₂ (λ o (n : ℕ). reading o p'.arena n) h.timer_dev h.size
    ∙ reading-same p.timer_dev p.arena p'.arena p.size fits h.rows
    ∙ sym (read_timer-eq p)
