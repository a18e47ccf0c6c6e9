-- ===== src/Tests/PlaneTests.antt =====
-- A plane of four tasks: its construction, and the properties of its methods.
use sched_pass.Prelude.{
  ℕ, ◌+◌, ◌*◌, ◌/◌, ◌%◌, ◌≤◌, ◌<◌, ◌≡◌, refl, inr, false, List, [], ◌∷◌, arith, Perm, range, none,
  if◌then◌else◌, ltb, get_or,
}
use sched_pass.Prelude.Int.{pos}
use sched_pass.Prelude.Result.{ok, err, struct_error, Returns}
use sched_pass.Sort.{sorted_by}
use sched_pass.Rt.Memory.{Bytes, store, load, u32_bytes, u32_at, words_bytes}
use sched_pass.Rt.Order.{region_order}
use sched_pass.Rt.Order.Split.{region_order-perm}
use sched_pass.Rt.Plane.{
  SchedPlane, ctrl_off, ctrl_bytes, fresh, make_plane, set_order, install_order, set_timer_enabled,
  set_row, push, push_writes, store_all,
}
use sched_pass.Rt.Plane.Windows.{stamped, WritesOnly}
use sched_pass.Rt.Plane.Methods.{
  Method, run, install, publish_all, row, timer_enabled, method_confined,
}
use sched_pass.Rt.Plane.Valid.{IsValid, fresh-IsValid, run_all, make_plane-IsValid}
use sched_pass.Rt.Plane.Table.{
  order_entry, order_table, make_plane-set_order-perm, order_entry-set_order,
}
use sched_pass.Rt.Plane.Publish.{Observed, pushes, push-Observed, push_wedged}
use sched_pass.Rt.Plane.Commit.{
  order_size_word, flags_word, install_order-push, set_timer_enabled-flags, set_row-fields,
}
use sched_pass.Tests.Instances.{exact_torch, exact_torch-IsTorch, small_floats}

abbrev four : SchedPlane
four = fresh 4

-- The order of three tiles, as the control loop computes it.
abbrev three_tiles : List ℕ
three_tiles = region_order exact_torch (pos 16) (3 ∷ 9 ∷ 1 ∷ []) (pos 2) none

made_table :
    Returns (λ p. order_table (set_order three_tiles p).1 ≡ 1 ∷ 2 ∷ 0 ∷ 3 ∷ []) (make_plane 4)
unfolding make_plane set_order region_order sorted_by u32_at store words_bytes load
made_table = refl

method_confined_example : WritesOnly ctrl_off 0x40000 four (run small_floats publish_all four).1
method_confined_example = method_confined small_floats publish_all four (omega arith)

abbrev calls : List (Method small_floats)
calls = install (2 ∷ 0 ∷ []) 2 ∷ row 1 7 70000 2 ∷ timer_enabled false ∷ publish_all ∷ []

make_plane-IsValid_example : Returns (λ p. IsValid (run_all small_floats calls p)) (make_plane 4)
make_plane-IsValid_example = make_plane-IsValid small_floats 4 calls (omega arith)

make_plane-set_order-perm_example :
    Returns (λ p. Perm (order_table (set_order three_tiles p).1) (range 4)) (make_plane 4)
make_plane-set_order-perm_example =
    make_plane-set_order-perm 4 3 three_tiles (omega arith) (omega arith)
      (region_order-perm exact_torch exact_torch-IsTorch (pos 16) (3 ∷ 9 ∷ 1 ∷ []) (pos 2) none)

-- All of both writes has landed.
abbrev landed : Bytes
landed = store_all four.arena (push_writes (stamped four))

landed_word : u32_at landed ctrl_off ≡ 1
unfolding u32_at store load u32_bytes push_writes store_all
landed_word = refl

landed-Observed : Observed four.arena (push_writes (stamped four)) landed
unfolding push_writes store_all
landed-Observed = inr (inr (λ x. refl))

push-Observed_example :
    ((x : ℕ) → 4 ≤ x → x < ctrl_bytes four → landed (ctrl_off + x) ≡ four.ctrl_host x)
    × ((push four).1.arena ≡ store_all four.arena (push_writes (stamped four)))
push-Observed_example =
    push-Observed four landed (fresh-IsValid 4 (omega arith)) (omega arith) landed-Observed
      landed_word

abbrev worn_out : SchedPlane
worn_out = record four { generation = 4294967295 }

push_wedged_example :
    ((push (pushes 3 worn_out)).0 ≡ err struct_error) × ((pushes 3 worn_out).arena ≡ worn_out.arena)
push_wedged_example = push_wedged 3 worn_out (omega arith)

install_order-push_example :
    (order_size_word (install_order (2 ∷ 0 ∷ 1 ∷ []) 3 four).1 ≡ order_size_word four)
    × ((push (install_order (2 ∷ 0 ∷ 1 ∷ []) 3 four).1).0 ≡ ok tt)
    × (order_size_word (push (install_order (2 ∷ 0 ∷ 1 ∷ []) 3 four).1).1 ≡ 3)
    × ((i : ℕ)
        → i < 4
        → order_entry (push (install_order (2 ∷ 0 ∷ 1 ∷ []) 3 four).1).1 i
          ≡ (if ltb i 3 then get_or (2 ∷ 0 ∷ 1 ∷ []) i 0 else order_entry four i))
install_order-push_example =
    install_order-push (2 ∷ 0 ∷ 1 ∷ []) 3 four (fresh-IsValid 4 (omega arith)) refl (omega arith)
      (omega arith) (omega arith)

flags_small : flags_word four < 4294967296
unfolding u32_at
flags_small = omega arith

set_timer_enabled-flags_example :
    ((set_timer_enabled false four).0 ≡ ok tt)
    × (flags_word (set_timer_enabled false four).1 % 2 ≡ 1)
    × (flags_word (set_timer_enabled false four).1 / 2 ≡ flags_word four / 2)
    × ((set_timer_enabled false four).1.ctrl_host 28 ≡ 0)
set_timer_enabled-flags_example = set_timer_enabled-flags false four 28 flags_small (omega arith)

set_row-fields_example :
    let (r, p') = set_row small_floats 1 7 70000 2 four in
    (r ≡ ok tt)
    × (u32_at p'.ctrl_host 40 ≡ 7)
    × (p'.ctrl_host 44 + 256 * p'.ctrl_host 45 ≡ 4464)
    × (p'.ctrl_host 46 ≡ 2)
    × (p'.ctrl_host 47 ≡ 0)
set_row-fields_example =
    set_row-fields small_floats 1 7 70000 2 four 7 47 (omega arith) refl (omega arith) (omega arith)

order_entry-set_order_example : order_entry (set_order (2 ∷ 0 ∷ []) four).1 3 ≡ order_entry four 3
order_entry-set_order_example =
    order_entry-set_order (2 ∷ 0 ∷ []) four 3 refl (omega arith) (omega arith)
