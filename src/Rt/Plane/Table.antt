-- ===== src/Rt/Plane/Table.antt =====
-- The order table that the kernel reads, after `set_order` and `install_order`.
use mathlib.Core.List.Perm
use sched_pass.Prelude.{
  ℕ, zero, suc, ◌+◌, ◌-◌, ◌*◌, ◌≤◌, ◌<◌, min, ◌≡◌, inl, inr, refl, ◌∙◌, List, [], ◌∷◌, ◌++◌, length,
  arith, sym, ap, ap₂, if◌then◌else◌, ltb, get_or, take, map, range, range_from, none, Perm,
  Bool-cases, length-take, length-append, length-range_from, range_from-append, length-perm, true,
  AllBelow-take, get_or-take, AllBelow-perm, AllBelow-range_from,
}
use sched_pass.Prelude.Result.{Returns}
use sched_pass.Rt.Memory.{u32_at, words_bytes}
use sched_pass.Rt.Memory.Laws.{
  AreWords, u32_at-same, u32_at-store_Outside, u32_at-words_bytes, length-words_bytes,
}
use sched_pass.Rt.Plane.{
  SchedPlane, order_off, max_tasks_limit, set_order, reset_order, publish, make_plane, fresh,
}
use sched_pass.Rt.Plane.Windows.{stamped, publish-WritesOnly}
use sched_pass.Rt.Plane.Valid.{make_plane_eq, set_order_rest}

-- Entry i of the order table, and the whole table.
abbrev pub order_entry : SchedPlane → ℕ → ℕ
order_entry p i = u32_at p.arena (order_off + 4 * i)

abbrev pub order_table : SchedPlane → List ℕ
order_table p = map (order_entry p) (range p.size)

-- `set_order` without the device channel writes the given tasks to the first entries of the order
-- table, as many as there are and as fit, and leaves the other entries as they are.
pub order_entry-set_order :
    (tasks : List ℕ) (p : SchedPlane) (i : ℕ)
    → p.order_dev ≡ none
    → AreWords tasks
    → i < p.size
    → order_entry (set_order tasks p).1 i
      ≡ (if ltb i (length tasks) then get_or tasks i 0 else order_entry p i)
unfolding set_order
order_entry-set_order tasks p i none_yet a h =
    let n = min (length tasks) p.size in
    elim (Bool-cases (ltb i (length tasks))) [
      | inl e ↦
          let inside : i < n = ground arith in
          rw (none_yet, set_order, e)
            (u32_at-words_bytes p.arena order_off (take n tasks) i (AllBelow-take _ n tasks a)
                (omega (arith, length-take n tasks))
              ∙ get_or-take n tasks i 0 inside)
      | inr e ↦
          let outside : length tasks ≤ i = ground arith in
          rw (none_yet, set_order, e)
            (u32_at-store_Outside p.arena order_off (words_bytes (take n tasks)) (order_off + 4 * i)
              (omega (arith, length-words_bytes (take n tasks), length-take n tasks)))
    ]

map-range_from :
    (f : ℕ → ℕ) (start : ℕ) (l : List ℕ)
    → ((i : ℕ) → i < length l → f (start + i) ≡ get_or l i 0)
    → map f (range_from start (length l)) ≡ l
map-range_from f start [] h = refl
map-range_from f start (x ∷ xs) h =
    ap₂ ◌∷◌ (ap f (sum_zero start) ∙ h 0 (omega arith))
      (map-range_from f (suc start) xs (λ i k. ap f (shift start i) ∙ h (suc i) (omega arith)))
  where
    sum_zero : (a : ℕ) → a ≡ a + 0
    sum_zero a = omega arith

    shift : (a b : ℕ) → suc a + b ≡ a + suc b
    shift a b = omega arith

get_or-append :
    (xs ys : List ℕ) (i : ℕ)
    → get_or (xs ++ ys) i 0
      ≡ (if ltb i (length xs) then get_or xs i 0 else get_or ys (i - length xs) 0)
get_or-append [] ys i =
    let e : i - 0 ≡ i = omega arith in
    elim (Bool-cases (ltb i 0)) [ inl h ↦ absurd (ground arith) | inr h ↦ rw (h, e) ]
get_or-append (x ∷ xs) ys zero = ground arith
get_or-append (x ∷ xs) ys (suc i) = ground (arith, get_or-append xs ys i)

get_or-range_from : (start n i : ℕ) → i < n → get_or (range_from start n) i 0 ≡ start + i
get_or-range_from start zero i h = absurd (omega arith)
get_or-range_from start (suc n) zero h = omega arith
get_or-range_from start (suc n) (suc i) h =
    get_or-range_from (suc start) n i (omega arith) ∙ omega arith

-- A table that is the identity, from the first entry on.
abbrev pub IsIdentity : SchedPlane → Type 0
IsIdentity p = (i : ℕ) → i < p.size → order_entry p i ≡ i

range_split : (n m : ℕ) → n ≤ m → range n ++ range_from n (m - n) ≡ range m
range_split n m h =
    let e : n + (m - n) ≡ m = omega arith in
    let f : 0 + n ≡ n = omega arith in sym (rw (e, f) at (range_from-append 0 n (m - n)))

module _ (tasks : List ℕ) (p : SchedPlane) (none_yet : p.order_dev ≡ none) (a : AreWords tasks)
    (id : IsIdentity p) where
  entry_of_prefix :
      (i : ℕ)
      → i < p.size
      → order_entry (set_order tasks p).1 (0 + i)
        ≡ get_or (tasks ++ range_from (length tasks) (p.size - length tasks)) i 0
  entry_of_prefix i h =
      let n = length tasks in
      let rest = range_from n (p.size - n) in
      let e : 0 + i ≡ i = omega arith in
      let same : (if ltb i n then get_or tasks i 0 else order_entry p i)
          ≡ (if ltb i n then get_or tasks i 0 else get_or rest (i - n) 0) =
        ground (arith, id i h, get_or-range_from n (p.size - n) (i - n)) in
      rw e (order_entry-set_order tasks p i none_yet a h ∙ same ∙ sym (get_or-append tasks rest i))

  pub order_table-set_order :
      length tasks ≤ p.size
      → order_table (set_order tasks p).1
        ≡ tasks ++ range_from (length tasks) (p.size - length tasks)
  order_table-set_order fits =
      let n = length tasks in
      let l = tasks ++ range_from n (p.size - n) in
      let whole : length l ≡ p.size = omega (
        arith,
        length-append tasks (range_from n (p.size - n)),
        length-range_from n (p.size - n),
      ) in
      let (size, _, _) = set_order_rest tasks p in
      ap (λ k. map (order_entry (set_order tasks p).1) (range k)) (size ∙ sym whole)
      ∙ map-range_from (order_entry (set_order tasks p).1) 0 l
          (λ i h. entry_of_prefix i (omega arith))

set_order_dev :
    (tasks : List ℕ) (p : SchedPlane) → p.order_dev ≡ none → (set_order tasks p).1.order_dev ≡ none
unfolding set_order
set_order_dev tasks p h = rw (h, set_order) h

fresh-IsIdentity : (n : ℕ) → n ≤ max_tasks_limit → IsIdentity (reset_order (fresh n)).1
unfolding reset_order
fresh-IsIdentity n h i k =
    let in_range : ltb i (length (range n)) ≡ true = ground (arith, length-range_from 0 n) in
    order_entry-set_order (range n) (fresh n) i refl (AllBelow-range_from _ 0 n (omega arith)) k
    ∙ rw in_range (get_or-range_from 0 n i k ∙ omega arith)

pub publish_entry :
    (p : SchedPlane) (i : ℕ)
    → p.size ≤ max_tasks_limit
    → i < p.size
    → order_entry (publish p).1 i ≡ order_entry p i
publish_entry p i h k =
    u32_at-same p.arena (publish p).1.arena (order_off + 4 * i)
      (λ y low high. publish-WritesOnly p y (omega arith))

-- A new plane's order table is the identity, so that after `set_order` with a permutation of the
-- first n tasks it is one of all tasks: each task is served exactly once, the tail by identity.
pub make_plane-set_order-perm :
    (max_tasks n : ℕ) (tasks : List ℕ)
    → max_tasks ≤ max_tasks_limit
    → n ≤ max_tasks
    → Perm tasks (range n)
    → Returns
        (λ p. Perm (order_table (set_order tasks p).1) (range max_tasks))
        (make_plane max_tasks)
unfolding reset_order set_order publish
make_plane-set_order-perm max_tasks n tasks h k perm =
    let p0 = stamped (reset_order (fresh max_tasks)).1 in
    let p = (publish p0).1 in
    let count : length tasks ≡ n = length-perm perm ∙ length-range_from 0 n in
    let words : AreWords tasks = AllBelow-perm _ perm (AllBelow-range_from _ 0 n (omega arith)) in
    let id : IsIdentity p = λ i j. publish_entry p0 i h j ∙ fresh-IsIdentity max_tasks h i j in
    let table = order_table-set_order tasks p refl words id (omega arith) in
    rw (make_plane_eq max_tasks h, table, count)
      (rw (← range_split n max_tasks k) (Perm.append_right (range_from n (max_tasks - n)) perm))
