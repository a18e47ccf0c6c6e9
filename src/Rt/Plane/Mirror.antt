-- ===== src/Rt/Plane/Mirror.antt =====
-- The methods that pack into the host mirror: what they leave alone, and what they write.
use sched_pass.Prelude.{
  ℕ, ◌+◌, ◌-◌, ◌*◌, ◌/◌, ◌%◌, ◌≤◌, ◌≡◌, inl, inr, refl, ◌∙◌, Bool, Option, none, some, List, [],
  ◌∷◌, length, arith, Option-cases, Bool-cases, ltb, leb, range, ◌++◌, length-append, ap,
}
use sched_pass.Prelude.Result.{Result-cases}
use sched_pass.Rt.Memory.{store, u32_bytes, words_bytes}
use sched_pass.Rt.Memory.Laws.{Outside, store-Outside, length-u32_bytes, length-words_bytes}
use sched_pass.Rt.Plane.{
  SchedPlane, Action, FloatFormat, then_keeps, row_size, row_item, hint_auto, ctrl_bytes,
  ctrl_rows_off, ctrl_flags_off, ctrl_num_tasks_off, ctrl_order_size_off, ctrl_lambda_off, pack_u32,
  set_order_size, set_num_tasks, set_timer_enabled, set_row, set_row_of, for_rows, set_rows,
  set_lambda, f32_list,
}

-- Only the mirror changed, and of it no byte of the generation word or past its end.
pub record Keeps (p p' : SchedPlane) : Type 0 where
  pub arena : (x : ℕ) → p'.arena x ≡ p.arena x
  pub size : p'.size ≡ p.size
  pub generation : p'.generation ≡ p.generation
  pub timer_dev : p'.timer_dev ≡ p.timer_dev
  pub order_dev : p'.order_dev ≡ p.order_dev
  pub mirror : (x : ℕ) → Outside 4 (ctrl_bytes p - 4) x → p'.ctrl_host x ≡ p.ctrl_host x

pub Keeps-refl : (p : SchedPlane) → Keeps p p
Keeps-refl p = record {
  arena = λ x. refl;
  size = refl;
  generation = refl;
  timer_dev = refl;
  order_dev = refl;
  mirror = λ x h. refl;
}

pub Keeps-trans : {p q r : SchedPlane} → Keeps p q → Keeps q r → Keeps p r
Keeps-trans h k = record {
  arena = λ x. k.arena x ∙ h.arena x;
  size = k.size ∙ h.size;
  generation = k.generation ∙ h.generation;
  timer_dev = k.timer_dev ∙ h.timer_dev;
  order_dev = k.order_dev ∙ h.order_dev;
  mirror = λ x o. k.mirror x (rw h.size o) ∙ h.mirror x o;
}

store-Keeps :
    (off : ℕ) (bs : List ℕ) (p : SchedPlane)
    → 4 ≤ off
    → off + length bs ≤ ctrl_bytes p
    → Keeps p (record p { ctrl_host = store p.ctrl_host off bs })
store-Keeps off bs p low high = record {
  arena = λ x. refl;
  size = refl;
  generation = refl;
  timer_dev = refl;
  order_dev = refl;
  mirror = λ x h. store-Outside p.ctrl_host off bs x (omega arith);
}

pack_u32-Keeps : (off n : ℕ) (p : SchedPlane) → 4 ≤ off → Keeps p (pack_u32 off n p).1
unfolding pack_u32
pack_u32-Keeps off n p h = elim (Bool-cases (ltb (ctrl_bytes p) (off + 4))) [
  | inl e ↦ rw e (Keeps-refl p)
  | inr e ↦ elim (Bool-cases (leb 4294967296 n)) [
    | inl e' ↦ rw (e, e') (Keeps-refl p)
    | inr e' ↦ rw (e, e') (store-Keeps off (u32_bytes n) p h (ground (arith, length-u32_bytes n)))
  ]
]

pub set_order_size-Keeps : (n : ℕ) (p : SchedPlane) → Keeps p (set_order_size n p).1
unfolding set_order_size
set_order_size-Keeps n p = pack_u32-Keeps ctrl_order_size_off n p (omega arith)

pub set_num_tasks-Keeps : (n : ℕ) (p : SchedPlane) → Keeps p (set_num_tasks n p).1
unfolding set_num_tasks
set_num_tasks-Keeps n p = pack_u32-Keeps ctrl_num_tasks_off n p (omega arith)

pub set_timer_enabled-Keeps : (on : Bool) (p : SchedPlane) → Keeps p (set_timer_enabled on p).1
unfolding set_timer_enabled
set_timer_enabled-Keeps on p = pack_u32-Keeps ctrl_flags_off _ p (omega arith)

for_rows-Keeps :
    (body : ℕ → Action (Unit {0}))
    → ((i : ℕ) (p : SchedPlane) → Keeps p (body i p).1)
    → (is : List ℕ) (p : SchedPlane) → Keeps p (for_rows body is p).1
unfolding for_rows
for_rows-Keeps body h [] p = Keeps-refl p
for_rows-Keeps body h (i ∷ is) p =
    then_keeps (Keeps p) (body i) (for_rows body is) p (h i p)
      (λ q k. Keeps-trans k (for_rows-Keeps body h is q))

module _ (f : FloatFormat) where
  open f use {Float, f32_bits, zero_float}

  pub set_row-Keeps :
      (i : ℕ) (q : Float) (tau hint : ℕ) (p : SchedPlane) → Keeps p (set_row f i q tau hint p).1
  unfolding set_row
  set_row-Keeps i q tau hint p =
      let off = ctrl_rows_off + row_size * i in
      elim (Bool-cases (ltb (ctrl_bytes p) (off + 7))) [
        | inl e ↦ rw e (Keeps-refl p)
        | inr e ↦ elim (Option-cases (f32_bits q)) [
          | inl e' ↦ rw (e, e') (Keeps-refl p)
          | inr (bits, e') ↦
              let bs = u32_bytes bits ++ tau % 256 ∷ tau / 256 % 256 ∷ hint % 256 ∷ [] in
              let size : length bs ≡ 7 =
                length-append (u32_bytes bits) _ ∙ ap (λ n. n + 3) (length-u32_bytes bits) in
              rw (e, e') (store-Keeps off bs p (omega arith) (ground arith))
        ]
      ]

  set_row_of-Keeps :
      (q : Option (List Float)) (tau hint : Option (List ℕ)) (i : ℕ) (p : SchedPlane)
      → Keeps p (set_row_of f q tau hint i p).1
  unfolding set_row_of
  set_row_of-Keeps q tau hint i p = elim (Result-cases (row_item f q i zero_float)) [
    | inr (x, e) ↦ rw e (Keeps-refl p)
    | inl (q_i, e) ↦ elim (Result-cases (row_item f tau i 0)) [
      | inr (x, e') ↦ rw (e, e') (Keeps-refl p)
      | inl (tau_i, e') ↦ elim (Result-cases (row_item f hint i hint_auto)) [
        | inr (x, e'') ↦ rw (e, e', e'') (Keeps-refl p)
        | inl (hint_i, e'') ↦ rw (e, e', e'') (set_row-Keeps i q_i tau_i hint_i p)
      ]
    ]
  ]

  pub set_rows-Keeps :
      (q : Option (List Float)) (tau hint : Option (List ℕ)) (n : Option ℕ) (p : SchedPlane)
      → Keeps p (set_rows f q tau hint n p).1
  unfolding set_rows
  set_rows-Keeps q tau hint none p =
      for_rows-Keeps (set_row_of f q tau hint) (set_row_of-Keeps q tau hint) (range p.size) p
  set_rows-Keeps q tau hint (some n) p =
      for_rows-Keeps (set_row_of f q tau hint) (set_row_of-Keeps q tau hint) (range n) p

  length-f32_list :
      (xs : List Float) (ws : List ℕ) → f32_list f xs ≡ some ws → length ws ≡ length xs
  unfolding f32_list
  length-f32_list [] ws e = ground arith
  length-f32_list (x ∷ xs) ws e = elim (Option-cases (f32_list f xs)) [
    | inl n ↦ ground arith
    | inr (vs, t) ↦ ground (arith, length-f32_list xs vs t)
  ]

  pub set_lambda-Keeps :
      (bw l2 smem comp : Float) (p : SchedPlane) → Keeps p (set_lambda f bw l2 smem comp p).1
  unfolding set_lambda
  set_lambda-Keeps bw l2 smem comp p =
      elim (Option-cases (f32_list f (bw ∷ l2 ∷ smem ∷ comp ∷ []))) [
        | inl e ↦ rw (e, set_lambda) (Keeps-refl p)
        | inr (words, e) ↦
            rw (e, set_lambda)
              (store-Keeps ctrl_lambda_off (words_bytes words) p (omega arith) (
                omega (
                  arith,
                  length-words_bytes words,
                  length-f32_list (bw ∷ l2 ∷ smem ∷ comp ∷ []) words e,
                )))
      ]
