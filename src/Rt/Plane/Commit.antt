-- ===== src/Rt/Plane/Commit.antt =====
-- The fields of the ctrl table: the commit of an order by its size, the timer gate, the rows.
use sched_pass.Prelude.{
  ℕ, ◌+◌, ◌-◌, ◌*◌, ◌/◌, ◌%◌, ◌≤◌, ◌<◌, ◌≡◌, refl, ◌∙◌, Bool, List, [], ◌∷◌, ◌++◌, length, arith,
  ap, if◌then◌else◌, ltb, get_or, none, some, length-append,
}
use sched_pass.Prelude.Result.{ok, err, struct_error}
use sched_pass.Rt.Memory.{store, load, u32_bytes, u32_at}
use sched_pass.Rt.Memory.Laws.{
  AreWords, Outside, store-Outside, u32_at-same, u32_at-copy, u32_at-store_Outside,
  u32_at-store_self, length-u32_bytes, length-load, store-row,
}
use sched_pass.Rt.Plane.{
  SchedPlane, FloatFormat, ctrl_off, ctrl_bytes, ctrl_order_size_off, ctrl_flags_off, ctrl_rows_off,
  row_size, set_order, install_order, set_timer_enabled, set_row, timer_flags, push, publish,
  push_writes, store_all,
}
use sched_pass.Rt.Plane.Windows.{stamped, push_below, set_order-WritesOnly}
use sched_pass.Rt.Plane.Table.{order_entry, order_entry-set_order, publish_entry}
use sched_pass.Rt.Plane.Valid.{IsValid, set_order_rest}

-- The size that the kernel compares with its grid.
abbrev pub order_size_word : SchedPlane → ℕ
order_size_word p = u32_at p.arena (ctrl_off + ctrl_order_size_off)

install_order_eq :
    (tasks : List ℕ) (n : ℕ) (p : SchedPlane)
    → p.order_dev ≡ none
    → n < 4294967296
    → install_order tasks n p ≡ (
      ok tt,
      record (set_order tasks p).1 {
        ctrl_host = store (set_order tasks p).1.ctrl_host ctrl_order_size_off (u32_bytes n);
      },
    )
unfolding install_order
install_order_eq tasks n p e h = ground arith

pub published_word :
    (p : SchedPlane) (off : ℕ)
    → 4 ≤ off
    → off + 4 ≤ ctrl_bytes p
    → u32_at (publish p).1.arena (ctrl_off + off) ≡ u32_at p.ctrl_host off
unfolding publish push_writes store_all
published_word p off low high =
    u32_at-store_Outside _ ctrl_off (load p.ctrl_host 0 4) (ctrl_off + off)
      (omega (arith, length-load p.ctrl_host 0 4))
    ∙ u32_at-copy p.arena p.ctrl_host (ctrl_off + 4) 4 (ctrl_bytes p - 4) (off - 4) (ctrl_off + off)
        off (omega arith) (omega arith) (omega arith)

-- `install_order` followed by `push`: after the install the table holds the new order while the
-- size that the kernel reads is still the old one; after the push the size is the new one, and
-- the table is as the install left it.
pub install_order-push :
    (tasks : List ℕ) (n : ℕ) (p : SchedPlane)
    → IsValid p
    → p.order_dev ≡ none
    → AreWords tasks
    → n < 4294967296
    → p.generation + 1 < 4294967296
    → (order_size_word (install_order tasks n p).1 ≡ order_size_word p)
      × ((push (install_order tasks n p).1).0 ≡ ok tt)
      × (order_size_word (push (install_order tasks n p).1).1 ≡ n)
      × ((i : ℕ)
          → i < p.size
          → order_entry (push (install_order tasks n p).1).1 i
            ≡ (if ltb i (length tasks) then get_or tasks i 0 else order_entry p i))
unfolding publish
install_order-push tasks n p v e a h g =
    let q = record (set_order tasks p).1 {
      ctrl_host = store (set_order tasks p).1.ctrl_host ctrl_order_size_off (u32_bytes n);
    } in
    let (size, gen, _) = set_order_rest tasks p in
    let fits = v.fits in
    let below : q.generation + 1 < 4294967296 = omega arith in
    let size_word : u32_at (stamped q).ctrl_host ctrl_order_size_off ≡ n =
      u32_at-store_Outside q.ctrl_host 0 (u32_bytes (q.generation + 1)) ctrl_order_size_off
        (omega (arith, length-u32_bytes (q.generation + 1)))
      ∙ u32_at-store_self (set_order tasks p).1.ctrl_host ctrl_order_size_off n h in
    rw (install_order_eq tasks n p e h, push_below q below)
      (
        u32_at-same p.arena q.arena (ctrl_off + ctrl_order_size_off)
            (λ y low high. set_order-WritesOnly tasks p y (omega arith)),
        refl,
        published_word (stamped q) ctrl_order_size_off (omega arith) (omega arith) ∙ size_word,
        λ i k.
            publish_entry (stamped q) i (omega arith) (omega arith)
            ∙ order_entry-set_order tasks p i e a k,
      )

-- The flags word of the mirror, which `push` publishes.
abbrev pub flags_word : SchedPlane → ℕ
flags_word p = u32_at p.ctrl_host ctrl_flags_off

set_timer_enabled_eq :
    (on : Bool) (p : SchedPlane)
    → timer_flags on (flags_word p) < 4294967296
    → set_timer_enabled on p ≡ (
      ok tt,
      record p {
        ctrl_host = store p.ctrl_host ctrl_flags_off (u32_bytes (timer_flags on (flags_word p)));
      },
    )
unfolding set_timer_enabled
set_timer_enabled_eq on p h = ground arith

-- `set_timer_enabled` sets bit 0 of the flags to "off", keeps the other 31 bits, and touches no
-- other byte of the mirror: the task count, the order size and the rows stay.
pub set_timer_enabled-flags :
    (on : Bool) (p : SchedPlane) (x : ℕ)
    → flags_word p < 4294967296
    → Outside ctrl_flags_off 4 x
    → ((set_timer_enabled on p).0 ≡ ok tt)
      × (flags_word (set_timer_enabled on p).1 % 2 ≡ (if on then 0 else 1))
      × (flags_word (set_timer_enabled on p).1 / 2 ≡ flags_word p / 2)
      × ((set_timer_enabled on p).1.ctrl_host x ≡ p.ctrl_host x)
unfolding timer_flags
set_timer_enabled-flags on p x h o =
    let flags = timer_flags on (flags_word p) in
    let fits : flags < 4294967296 = ground arith in
    let word = u32_at-store_self p.ctrl_host ctrl_flags_off flags fits in
    rw (set_timer_enabled_eq on p fits, word)
      (
        refl,
        ground arith,
        ground arith,
        store-Outside p.ctrl_host ctrl_flags_off (u32_bytes flags) x
            (omega (arith, length-u32_bytes flags)),
      )

module _ (f : FloatFormat) where
  open f use {Float, f32_bits}

  set_row_eq :
      (i : ℕ) (q : Float) (tau hint : ℕ) (p : SchedPlane) {bits : ℕ}
      → i < p.size
      → f32_bits q ≡ some bits
      → set_row f i q tau hint p ≡ (
        ok tt,
        record p {
          ctrl_host =
              store p.ctrl_host
                (ctrl_rows_off + row_size * i)
                (u32_bytes bits ++ tau % 256 ∷ tau / 256 % 256 ∷ hint % 256 ∷ []);
        },
      )
  unfolding set_row
  set_row_eq i q tau hint p h e = ground arith

  -- A row past the capacity is refused, and nothing is written.
  set_row_out_of_range :
      (i : ℕ) (q : Float) (tau hint : ℕ) (p : SchedPlane)
      → p.size ≤ i
      → set_row f i q tau hint p ≡ (err struct_error, p)
  unfolding set_row
  set_row_out_of_range i q tau hint p h = ground arith

  -- `set_row i` of a row that exists stores q as its float32, tau by its low 16 bits and hint by
  -- its low 8 at the row's offsets, and changes no byte outside of the row's first 7.
  pub set_row-fields :
      (i : ℕ) (q : Float) (tau hint : ℕ) (p : SchedPlane) (bits x : ℕ)
      → i < p.size
      → f32_bits q ≡ some bits
      → bits < 4294967296
      → Outside (ctrl_rows_off + row_size * i) 7 x
      → let (r, p') = set_row f i q tau hint p in
        let off = ctrl_rows_off + row_size * i in
        (r ≡ ok tt)
        × (u32_at p'.ctrl_host off ≡ bits)
        × (p'.ctrl_host (off + 4) + 256 * p'.ctrl_host (off + 5) ≡ tau % 65536)
        × (p'.ctrl_host (off + 6) ≡ hint % 256)
        × (p'.ctrl_host x ≡ p.ctrl_host x)
  set_row-fields i q tau hint p bits x h e w o =
      let off = ctrl_rows_off + row_size * i in
      let bs = u32_bytes bits ++ tau % 256 ∷ tau / 256 % 256 ∷ hint % 256 ∷ [] in
      let size : length bs ≡ 7 =
        length-append (u32_bytes bits) (tau % 256 ∷ tau / 256 % 256 ∷ hint % 256 ∷ [])
        ∙ ap (λ n. n + 3) (length-u32_bytes bits) in
      let (q_word, tau_half, hint_byte) = store-row p.ctrl_host off bits tau hint w in
      rw (set_row_eq i q tau hint p h e)
        (refl, q_word, tau_half, hint_byte, store-Outside p.ctrl_host off bs x (omega arith))
