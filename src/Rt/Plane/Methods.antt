-- ===== src/Rt/Plane/Methods.antt =====
-- Every method of the plane, as one type of calls, with the table that each belongs to.
use sched_pass.Prelude.{ℕ, ◌≤◌, ◌≡◌, ◌∙◌, Bool, Option, List, arith, range}
use sched_pass.Rt.Plane.{
  SchedPlane, Action, FloatFormat, order_off, ctrl_off, timer_off, queue_off, max_tasks_limit,
  set_order, reset_order, set_order_size, install_order, set_num_tasks, set_timer_enabled, set_row,
  set_rows, set_lambda, push, clear_timer, reset_queue, use_device_timer, use_device_order,
  then_keeps,
}
use sched_pass.Rt.Plane.Windows.{
  WritesOnly, set_order-WritesOnly, push-WritesOnly, clear_timer-WritesOnly, reset_queue-WritesOnly,
  use_device_timer-WritesOnly, use_device_order-WritesOnly,
}
use sched_pass.Rt.Plane.Mirror.{
  set_order_size-Keeps, set_num_tasks-Keeps, set_timer_enabled-Keeps, set_row-Keeps, set_rows-Keeps,
  set_lambda-Keeps,
}

-- The four tables, and the 256 KiB window of each.
pub data Table : Type 0 where
  order ctrl timer queue : Table

abbrev pub table_off : Table → ℕ
table_off order = order_off
table_off ctrl = ctrl_off
table_off timer = timer_off
table_off queue = queue_off

abbrev pub window : ℕ
window = 0x40000

module _ (f : FloatFormat) where
  open f use {Float}

  pub data Method : Type 0 where
    set_order_of : List ℕ → Method
    reset : Method
    install : List ℕ → ℕ → Method
    order_size num_tasks : ℕ → Method
    timer_enabled : Bool → Method
    row : ℕ → Float → ℕ → ℕ → Method
    rows : Option (List Float) → Option (List ℕ) → Option (List ℕ) → Option ℕ → Method
    lambda : Float → Float → Float → Float → Method
    publish_all clear : Method
    prime_queue device_timer device_order : ℕ → Method

  unfoldable pub run : Method → Action (Unit {0})
  run (set_order_of tasks) = set_order tasks
  run reset = reset_order
  run (install tasks n) = install_order tasks n
  run (order_size n) = set_order_size n
  run (num_tasks n) = set_num_tasks n
  run (timer_enabled on) = set_timer_enabled on
  run (row i q tau hint) = set_row f i q tau hint
  run (rows q tau hint n) = set_rows f q tau hint n
  run (lambda bw l2 smem comp) = set_lambda f bw l2 smem comp
  run publish_all = push
  run clear = clear_timer
  run (prime_queue n) = reset_queue n
  run (device_timer ptr) = use_device_timer ptr
  run (device_order ptr) = use_device_order ptr

  -- The table of a method; one that only packs the mirror may count for any.
  abbrev pub table : Method → Table
  table (set_order_of _) = order
  table reset = order
  table (install _ _) = order
  table clear = timer
  table (device_timer _) = timer
  table (prime_queue _) = queue
  table (device_order _) = order
  table _ = ctrl

  -- No method writes outside of the 256 KiB window of its own table, if the plane has at most the
  -- number of tasks that its constructor admits: `set_order`, `reset_order`, `install_order` and
  -- `use_device_order` write to the order table, `clear_timer` and `use_device_timer` to the timer,
  -- `reset_queue` to the ticket, and all others to the ctrl table at most.
  pub method_confined :
      (m : Method) (p : SchedPlane)
      → p.size ≤ max_tasks_limit
      → WritesOnly (table_off (table m)) window p (run m p).1
  unfolding run reset_order install_order
  method_confined (set_order_of tasks) p h x o = set_order-WritesOnly tasks p x (omega arith)
  method_confined reset p h x o = set_order-WritesOnly (range p.size) p x (omega arith)
  method_confined (install tasks n) p h x o =
      then_keeps (λ q. q.arena x ≡ p.arena x) (set_order tasks) (set_order_size n) p
        (set_order-WritesOnly tasks p x (omega arith))
        (λ q e. (set_order_size-Keeps n q).arena x ∙ e)
  method_confined (order_size n) p h x o = (set_order_size-Keeps n p).arena x
  method_confined (num_tasks n) p h x o = (set_num_tasks-Keeps n p).arena x
  method_confined (timer_enabled on) p h x o = (set_timer_enabled-Keeps on p).arena x
  method_confined (row i q tau hint) p h x o = (set_row-Keeps f i q tau hint p).arena x
  method_confined (rows q tau hint n) p h x o = (set_rows-Keeps f q tau hint n p).arena x
  method_confined (lambda bw l2 smem comp) p h x o = (set_lambda-Keeps f bw l2 smem comp p).arena x
  method_confined publish_all p h x o = push-WritesOnly p x (omega arith)
  method_confined clear p h x o = clear_timer-WritesOnly p x (omega arith)
  method_confined (prime_queue n) p h x o = reset_queue-WritesOnly n p x (omega arith)
  method_confined (device_timer ptr) p h x o = use_device_timer-WritesOnly ptr p x (omega arith)
  method_confined (device_order ptr) p h x o = use_device_order-WritesOnly ptr p x (omega arith)
