-- ===== src/Rt/Plane/Windows.antt =====
-- Where each method writes, by the windows of the arena.
use sched_pass.Prelude.{
  ℕ, ◌+◌, ◌-◌, ◌*◌, ◌≤◌, ◌<◌, min, ◌≡◌, inl, inr, ◌∙◌, List, length, take, arith, length-take,
  Option-cases, Bool-cases, dec_lt, leb,
}
use sched_pass.Prelude.Result.{err, struct_error}
use sched_pass.Rt.Memory.{store, load, u32_bytes, words_bytes}
use sched_pass.Rt.Memory.Laws.{
  Outside, store-Outside, fill-Outside, length-words_bytes, length-u32_bytes, length-u64_bytes,
  length-load,
}
use sched_pass.Rt.Plane.{
  SchedPlane, order_off, ctrl_off, timer_off, queue_off, ctrl_bytes, write, set_order, publish,
  push_writes, store_all, push, clear_timer, reset_queue, use_device_timer, use_device_order,
  pack_u32,
}

-- Nothing of the arena changes outside of the window of `n` bytes at `off`.
abbrev pub WritesOnly : ℕ → ℕ → SchedPlane → SchedPlane → Type 0
WritesOnly off n p p' = (x : ℕ) → Outside off n x → p'.arena x ≡ p.arena x

write-WritesOnly :
    (off : ℕ) (bs : List ℕ) (p : SchedPlane) → WritesOnly off (length bs) p (write off bs p).1
unfolding write
write-WritesOnly off bs p x h = store-Outside p.arena off bs x h

pub set_order-WritesOnly :
    (tasks : List ℕ) (p : SchedPlane) → WritesOnly order_off (4 * p.size) p (set_order tasks p).1
unfolding set_order
set_order-WritesOnly tasks p x h = elim (Option-cases p.order_dev) [
  | inl e ↦
      rw (e, set_order)
        (store-Outside p.arena order_off (words_bytes (take (min (length tasks) p.size) tasks)) x (
          omega (
            arith,
            length-words_bytes (take (min (length tasks) p.size) tasks),
            length-take (min (length tasks) p.size) tasks,
          )))
  | inr (dev, e) ↦ rw (e, set_order)
]

pub publish-WritesOnly : (p : SchedPlane) → WritesOnly ctrl_off (ctrl_bytes p) p (publish p).1
unfolding publish push_writes store_all
publish-WritesOnly p x h =
    let body = load p.ctrl_host 4 (ctrl_bytes p - 4) in
    let word = load p.ctrl_host 0 4 in
    store-Outside (store p.arena (ctrl_off + 4) body) ctrl_off word x
      (omega (arith, length-load p.ctrl_host 0 4))
    ∙ store-Outside p.arena (ctrl_off + 4) body x
        (omega (arith, length-load p.ctrl_host 4 (ctrl_bytes p - 4)))

-- Packing a word into the mirror leaves the arena alone, whether it raises or not.
pack_u32-arena : (off n : ℕ) (p : SchedPlane) → (pack_u32 off n p).1.arena ≡ p.arena
unfolding pack_u32
pack_u32-arena off n p = ground arith

-- `push` below the last generation, and at it.
abbrev pub stamped : SchedPlane → SchedPlane
stamped p = record p {
  ctrl_host = store p.ctrl_host 0 (u32_bytes (p.generation + 1));
  generation = p.generation + 1;
}

pub push_below : (p : SchedPlane) → p.generation + 1 < 4294967296 → push p ≡ publish (stamped p)
unfolding push
push_below p h = ground arith

pub push_at_limit :
    (p : SchedPlane)
    → 4294967296 ≤ p.generation + 1
    → push p ≡ (err struct_error, record p { generation = p.generation + 1 })
unfolding push
push_at_limit p h = ground arith

pub push-WritesOnly : (p : SchedPlane) → WritesOnly ctrl_off (ctrl_bytes p) p (push p).1
push-WritesOnly p x h = elim (dec_lt (p.generation + 1) 4294967296) [
  | yes below ↦ rw (push_below p below) (publish-WritesOnly (stamped p) x h)
  | no above ↦ rw (push_at_limit p (omega arith))
]

pub clear_timer-WritesOnly :
    (p : SchedPlane) → WritesOnly timer_off (8 * p.size) p (clear_timer p).1
unfolding clear_timer
clear_timer-WritesOnly p x h = elim (Option-cases p.timer_dev) [
  | inl e ↦ rw (e, clear_timer) (fill-Outside p.arena timer_off 0 (8 * p.size) x h)
  | inr (dev, e) ↦ rw (e, clear_timer)
]

pub reset_queue-WritesOnly : (n : ℕ) (p : SchedPlane) → WritesOnly queue_off 4 p (reset_queue n p).1
unfolding reset_queue
reset_queue-WritesOnly n p x h = elim (Bool-cases (leb 2147483648 n)) [
  | inl e ↦ rw e
  | inr e ↦
      rw e (store-Outside p.arena queue_off (u32_bytes n) x (omega (arith, length-u32_bytes n)))
]

pub use_device_timer-WritesOnly :
    (ptr : ℕ) (p : SchedPlane) → WritesOnly timer_off 8 p (use_device_timer ptr p).1
unfolding use_device_timer
use_device_timer-WritesOnly ptr p x h =
    store-Outside p.arena timer_off _ x (omega (arith, length-u64_bytes))

pub use_device_order-WritesOnly :
    (ptr : ℕ) (p : SchedPlane) → WritesOnly order_off 8 p (use_device_order ptr p).1
unfolding use_device_order
use_device_order-WritesOnly ptr p x h =
    store-Outside p.arena order_off _ x (omega (arith, length-u64_bytes))
