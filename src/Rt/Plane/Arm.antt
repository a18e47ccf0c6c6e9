-- ===== src/Rt/Plane/Arm.antt =====
-- A step that a client arms: the order, the number of its tasks, and the publication.
use sched_pass.Prelude.{
  ℕ, ◌+◌, ◌<◌, ◌≡◌, refl, ◌∙◌, List, length, arith, if◌then◌else◌, ltb, get_or, none,
}
use sched_pass.Prelude.Result.{ok}
use sched_pass.Rt.Memory.{store, u32_bytes, u32_at}
use sched_pass.Rt.Memory.Laws.{AreWords, u32_at-store_Outside, u32_at-store_self, length-u32_bytes}
use sched_pass.Rt.Plane.{
  SchedPlane, ◌>>◌, then_ok, ctrl_off, ctrl_num_tasks_off, set_order, set_num_tasks, push, publish,
}
use sched_pass.Rt.Plane.Windows.{stamped, push_below}
use sched_pass.Rt.Plane.Table.{order_entry, order_entry-set_order, publish_entry}
use sched_pass.Rt.Plane.Valid.{IsValid, set_order_rest}
use sched_pass.Rt.Plane.Commit.{published_word}

-- The number of tasks that the kernel reads.
abbrev pub num_tasks_word : SchedPlane → ℕ
num_tasks_word p = u32_at p.arena (ctrl_off + ctrl_num_tasks_off)

filled_eq :
    (tasks : List ℕ) (n : ℕ) (p : SchedPlane)
    → p.order_dev ≡ none
    → n < 4294967296
    → (set_order tasks >> set_num_tasks n) p ≡ (
      ok tt,
      record (set_order tasks p).1 {
        ctrl_host = store (set_order tasks p).1.ctrl_host ctrl_num_tasks_off (u32_bytes n);
      },
    )
unfolding set_order set_num_tasks
filled_eq tasks n p e h = ground arith

-- After the three calls the kernel reads the number of tasks, and the order in the table.
pub arm_lem :
    (tasks : List ℕ) (n : ℕ) (p : SchedPlane)
    → IsValid p
    → p.order_dev ≡ none
    → AreWords tasks
    → n < 4294967296
    → p.generation + 1 < 4294967296
    → let (r, p') = (set_order tasks >> set_num_tasks n >> push) p in
      (r ≡ ok tt)
      × (num_tasks_word p' ≡ n)
      × ((i : ℕ)
          → i < p.size
          → order_entry p' i ≡ (if ltb i (length tasks) then get_or tasks i 0 else order_entry p i))
unfolding publish
arm_lem tasks n p v e a h g =
    let q = record (set_order tasks p).1 {
      ctrl_host = store (set_order tasks p).1.ctrl_host ctrl_num_tasks_off (u32_bytes n);
    } in
    let (size, gen, _) = set_order_rest tasks p in
    let fits = v.fits in
    let below : q.generation + 1 < 4294967296 = omega arith in
    let word : u32_at (stamped q).ctrl_host ctrl_num_tasks_off ≡ n =
      u32_at-store_Outside q.ctrl_host 0 (u32_bytes (q.generation + 1)) ctrl_num_tasks_off
        (omega (arith, length-u32_bytes (q.generation + 1)))
      ∙ u32_at-store_self (set_order tasks p).1.ctrl_host ctrl_num_tasks_off n h in
    rw
      (
        then_ok (set_order tasks >> set_num_tasks n) push p (filled_eq tasks n p e h),
        push_below q below,
      )
      (
        refl,
        published_word (stamped q) ctrl_num_tasks_off (omega arith) (omega arith) ∙ word,
        λ i k.
            publish_entry (stamped q) i (omega arith) (omega arith)
            ∙ order_entry-set_order tasks p i e a k,
      )
