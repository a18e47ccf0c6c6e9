-- ===== src/Rt/Plane.antt =====
-- python/sched_rt.py, `class SchedPlane`: the control tables of one process. The arena is the
-- mapping that the kernel reads, `ctrl_host` the mirror that `push` publishes, and a device
-- channel is a torch tensor with its address.
mod State
pub mod Windows
pub mod Mirror
pub mod Methods
pub mod Valid
pub mod Table
pub mod Commit
pub mod Arm
pub mod Publish
pub mod Issued
pub use State.*
use sched_pass.Prelude.{
  ℕ, ◌+◌, ◌-◌, ◌*◌, ◌/◌, ◌%◌, Bool, Option, none, some, List, [], ◌∷◌, ◌++◌, map, if◌then◌else◌,
  ltb, leb, length, get_elem?, take, drop, min, replicate, range,
}
use sched_pass.Prelude.Result.{
  Exception, Result, ok, err, value_error, struct_error, overflow_error, index_error, of_option,
}
use sched_pass.Rt.Memory.{Bytes, store, load, fill, u32_bytes, u64_bytes, u32_at, words_bytes}

-- The ABI offsets and the arena's layout.
abbrev pub ctrl_num_tasks_off : ℕ
ctrl_num_tasks_off = 4

abbrev pub ctrl_lambda_off : ℕ
ctrl_lambda_off = 8

abbrev pub ctrl_flags_off : ℕ
ctrl_flags_off = 24

abbrev pub ctrl_order_size_off : ℕ
ctrl_order_size_off = 28

abbrev pub ctrl_rows_off : ℕ
ctrl_rows_off = 32

abbrev pub row_size : ℕ
row_size = 8

abbrev pub hint_auto : ℕ
hint_auto = 0

abbrev pub order_off : ℕ
order_off = 0

abbrev pub ctrl_off : ℕ
ctrl_off = 0x40000

abbrev pub timer_off : ℕ
timer_off = 0x80000

abbrev pub queue_off : ℕ
queue_off = 0xC0000

abbrev pub arena_bytes : ℕ
arena_bytes = 0x100000

abbrev pub max_tasks_limit : ℕ
max_tasks_limit = 16384

-- What the class uses of floats: `struct`'s "f" format, the bits of the nearest float32, or none
-- where the value is too large for one (`OverflowError`).
pub record FloatFormat : Type 1 where
  pub Float : Type 0
  pub f32_bits : Float → Option ℕ
  pub zero_float : Float

-- `_ctrl_host`'s size
abbrev pub ctrl_bytes : SchedPlane → ℕ
ctrl_bytes p = ctrl_rows_off + row_size * p.size

-- `struct.pack_into("<I", self._ctrl_host, off, n)`
pub pack_u32 : ℕ → ℕ → Action (Unit {0})
pack_u32 off n p =
    if ltb (ctrl_bytes p) (off + 4)
    then (err struct_error, p)
    else if leb 4294967296 n
    then (err struct_error, p)
    else (ok tt, record p { ctrl_host = store p.ctrl_host off (u32_bytes n) })

-- `self.arena.write(off, bs)`
pub write : ℕ → List ℕ → Action (Unit {0})
write off bs p = (ok tt, record p { arena = store p.arena off bs })

-- `tasks` is what `torch.as_tensor(tasks, dtype=torch.int32)` holds.
unfoldable pub set_order : List ℕ → Action (Unit {0})
unfolding write
set_order tasks p =
    let n = min (length tasks) p.size in
    elim p.order_dev [
      | some dev ↦ (
        ok tt,
        record p { order_dev = some (record dev { items = take n tasks ++ drop n dev.items }) },
      )
      | none ↦ write order_off (words_bytes (take n tasks)) p
    ]

pub reset_order : Action (Unit {0})
unfolding set_order
reset_order p = set_order (range p.size) p

pub set_order_size : ℕ → Action (Unit {0})
unfolding pack_u32
set_order_size n = pack_u32 ctrl_order_size_off n

pub install_order : List ℕ → ℕ → Action (Unit {0})
unfolding set_order set_order_size
install_order tasks n = do set_order tasks; set_order_size n

unfoldable pub set_num_tasks : ℕ → Action (Unit {0})
unfolding pack_u32
set_num_tasks n = pack_u32 ctrl_num_tasks_off n

-- `flags & ~1 | (0 if on else 1)`
pub timer_flags : Bool → ℕ → ℕ
timer_flags on flags = flags / 2 * 2 + (if on then 0 else 1)

unfoldable pub set_timer_enabled : Bool → Action (Unit {0})
unfolding pack_u32 timer_flags
set_timer_enabled on p =
    pack_u32 ctrl_flags_off (timer_flags on (u32_at p.ctrl_host ctrl_flags_off)) p

-- `push`: the body of the mirror first, the generation word last.
unfoldable pub push_writes : SchedPlane → List (ℕ × List ℕ)
push_writes p =
    (ctrl_off + 4, load p.ctrl_host 4 (ctrl_bytes p - 4)) ∷ (ctrl_off, load p.ctrl_host 0 4) ∷ []

unfoldable pub store_all : Bytes → List (ℕ × List ℕ) → Bytes
store_all m [] = m
store_all m ((off, bs) ∷ ws) = store_all (store m off bs) ws

pub publish : Action (Unit {0})
unfolding push_writes store_all
publish p = (ok tt, record p { arena = store_all p.arena (push_writes p) })

pub bump_generation : Action (Unit {0})
bump_generation p = (ok tt, record p { generation = p.generation + 1 })

pub stamp_generation : Action (Unit {0})
unfolding pack_u32
stamp_generation p = pack_u32 0 p.generation p

unfoldable pub push : Action (Unit {0})
unfolding publish bump_generation stamp_generation
push = do bump_generation; stamp_generation; publish

-- `use_device_timer` and `use_device_order`; `ptr` is the address of the tensor that torch makes.
pub use_device_timer : ℕ → Action (Unit {0})
unfolding write
use_device_timer ptr p =
    let dev : DeviceTensor = elim p.timer_dev [
      | none ↦ record { ptr = ptr; items = replicate p.size 0 }
      | some d ↦ d
    ] in
    write timer_off (u64_bytes dev.ptr) (record p { timer_dev = some dev })

pub use_device_order : ℕ → Action (Unit {0})
unfolding write
use_device_order ptr p =
    let dev : DeviceTensor = elim p.order_dev [
      | none ↦ record { ptr = ptr; items = range p.size }
      | some d ↦ d
    ] in
    write order_off (u64_bytes dev.ptr) (record p { order_dev = some dev })

pub clear_timer : Action (Unit {0})
clear_timer p = elim p.timer_dev [
  | some d ↦ (ok tt, record p { timer_dev = some (record d { items = replicate p.size 0 }) })
  | none ↦ (ok tt, record p { arena = fill p.arena timer_off 0 (8 * p.size) })
]

pub read_words : Bytes → ℕ → List ℕ → List ℕ
read_words m off [] = []
read_words m off (i ∷ is) =
    (u32_at m (off + 8 * i) + 4294967296 * u32_at m (off + 8 * i + 4)) ∷ read_words m off is

pub read_timer : SchedPlane → List ℕ
unfolding read_words
read_timer p = elim p.timer_dev [
  | some d ↦ d.items
  | none ↦ read_words p.arena timer_off (range p.size)
]

pub reset_queue : ℕ → Action (Unit {0})
unfolding write
reset_queue workers p =
    if leb 2147483648 workers then (err struct_error, p) else write queue_off (u32_bytes workers) p

pub r_from_occupancy : ℕ → ℕ → ℕ
r_from_occupancy sm_count blocks_per_sm = blocks_per_sm * sm_count

pub for_rows : (ℕ → Action (Unit {0})) → List ℕ → Action (Unit {0})
for_rows body [] p = (ok tt, p)
for_rows body (i ∷ is) p = (body i >> for_rows body is) p

module _ (f : FloatFormat) where
  open f use {Float, f32_bits, zero_float}

  f32_list : List Float → Option (List ℕ)
  f32_list [] = some []
  f32_list (x ∷ xs) =
      let rest = f32_list xs in
      elim (f32_bits x) [
        | none ↦ none
        | some w ↦ elim rest [ none ↦ none | some ws ↦ some (w ∷ ws) ]
      ]

  -- `struct.pack_into("<fHB", self._ctrl_host, off, q, tau & 0xFFFF, hint & 0xFF)`
  pub set_row : ℕ → Float → ℕ → ℕ → Action (Unit {0})
  set_row i q tau hint p =
      let off = ctrl_rows_off + row_size * i in
      if ltb (ctrl_bytes p) (off + 7) then (err struct_error, p) else elim (f32_bits q) [
        | none ↦ (err overflow_error, p)
        | some bits ↦ (
          ok tt,
          record p {
            ctrl_host =
                store p.ctrl_host off
                  (u32_bytes bits ++ tau % 256 ∷ tau / 256 % 256 ∷ hint % 256 ∷ []);
          },
        )
      ]

  -- `q[i] if q is not None else default`
  row_item {ℓ} : {A : Type ℓ} → Option (List A) → ℕ → A → Result A
  row_item none i default = ok default
  row_item (some l) i default = of_option index_error (get_elem? l i)

  set_row_of : Option (List Float) → Option (List ℕ) → Option (List ℕ) → ℕ → Action (Unit {0})
  unfolding set_row row_item
  set_row_of q tau hint i = do
    q_i ← raise_or (row_item q i zero_float)
    tau_i ← raise_or (row_item tau i 0)
    hint_i ← raise_or (row_item hint i hint_auto)
    set_row i q_i tau_i hint_i

  pub set_rows :
      Option (List Float) → Option (List ℕ) → Option (List ℕ) → Option ℕ → Action (Unit {0})
  unfolding set_row_of for_rows
  set_rows q tau hint none p = for_rows (set_row_of q tau hint) (range p.size) p
  set_rows q tau hint (some n) p = for_rows (set_row_of q tau hint) (range n) p

  -- `struct.pack_into("<4f", self._ctrl_host, CTRL_LAMBDA_OFF, bw, l2, smem, comp)`
  pub set_lambda : Float → Float → Float → Float → Action (Unit {0})
  set_lambda bw l2 smem comp p = elim (f32_list (bw ∷ l2 ∷ smem ∷ comp ∷ [])) [
    | none ↦ (err overflow_error, p)
    | some words ↦
        (ok tt, record p { ctrl_host = store p.ctrl_host ctrl_lambda_off (words_bytes words) })
  ]

-- `SchedPlane.__init__`, on an arena that its constructor has mapped and cleared
abbrev pub fresh : ℕ → SchedPlane
fresh max_tasks = record {
  size = max_tasks;
  arena = λ x. 0;
  ctrl_host = λ x. 0;
  generation = 0;
  timer_dev = none;
  order_dev = none;
}

returned : Result (Unit {0}) × SchedPlane → Result SchedPlane
returned (ok _, p) = ok p
returned (err e, _) = err e

unfoldable pub make_plane : ℕ → Result SchedPlane
unfolding reset_order push returned
make_plane max_tasks =
    if ltb max_tasks_limit max_tasks
    then err value_error
    else returned ((reset_order >> push) (fresh max_tasks))
