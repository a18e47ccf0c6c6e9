-- ===== src/Plugin/Plan.antt =====
-- What `_plan_request_indices` returns.
use sched_pass.Prelude.{
  ℕ, zero, suc, ◌+◌, ◌*◌, ◌≤◌, ◌<◌, ◌≡◌, refl, ap, sym, ◌∙◌, inl, inr, ◌⊎◌, Bool, true, false, ◌||◌,
  ◌&&◌, Option, none, some, List, [], ◌∷◌, length, take, drop, arith, Bool-cases, ltb, ◌==◌,
  if◌then◌else◌, get_elem?_below, length-take, length-drop,
}
use sched_pass.Prelude.Int.{ℤ, pos, negsuc, pos_part, neg_part, ltb_ℤ}
use sched_pass.Prelude.Result.{Result, ok}
use sched_pass.Plugin.{words_of, field, is_bound, read_plan, plan_request_indices}

length-words_of :
    (count : ℕ) (bytes : List ℕ) → 4 * count ≤ length bytes → length (words_of count bytes) ≡ count
unfolding words_of
length-words_of zero bytes h = refl
length-words_of (suc count) [] h = absurd (omega arith)
length-words_of (suc count) (a ∷ []) h = absurd (omega arith)
length-words_of (suc count) (a ∷ b ∷ []) h = absurd (omega arith)
length-words_of (suc count) (a ∷ b ∷ c ∷ []) h = absurd (omega arith)
length-words_of (suc count) (a ∷ b ∷ c ∷ d ∷ bytes) h =
    ap suc (length-words_of count bytes (omega arith))

field-below : (v : List ℤ) (i : ℕ) → i < length v → (x : ℤ) × (field v i ≡ ok x)
unfolding field
field-below v i h = let (x, e) = get_elem?_below v i h in (x, rw e refl)

not_below : (x : ℤ) (n : ℕ) → ltb_ℤ x (pos n) ≡ false → (x ≡ pos (pos_part x)) × (n ≤ pos_part x)
not_below (pos a) n h = (refl, ground arith)
not_below (negsuc a) n h = absurd (ground arith)

-- No binding, or the request of at least n tiles and their number.
abbrev pub IsBinding : ℕ → Result (Option (List ℤ) × ℤ) → Type 0
IsBinding n r =
    (r ≡ ok (none, pos n))
    ⊎ ((tiles : List ℤ) × (r ≡ ok (some tiles, pos (length tiles))) × (n ≤ length tiles))

read_plan-IsBinding :
    (v : List ℤ) (buf : List ℕ) (n req_field : ℕ)
    → 0 < length v
    → req_field < length v
    → IsBinding n (read_plan v buf n req_field)
unfolding read_plan
read_plan-IsBinding v buf n req_field h k =
    let (padded, e) = field-below v 0 h in
    let (req_off, e') = field-below v req_field k in
    elim (Bool-cases (
      ltb_ℤ padded (pos n)
      || (ltb_ℤ req_off (pos 0) || ltb (length buf) (pos_part req_off + 4 * pos_part padded)))) [
        | inl g ↦ inl (rw (e, e', g) refl)
        | inr g ↦
            let bytes = take (4 * pos_part padded) (drop (pos_part req_off) buf) in
            let enough : pos_part req_off + 4 * pos_part padded ≤ length buf = ground arith in
            let size = length-words_of (pos_part padded) bytes (
              omega (
                arith,
                length-take (4 * pos_part padded) (drop (pos_part req_off) buf),
                length-drop (pos_part req_off) buf,
              )) in
            let low : ltb_ℤ padded (pos n) ≡ false = ground arith in
            let (whole, fits) = not_below padded n low in
            inr (
              words_of (pos_part padded) bytes,
              rw (e, e', g)
                  (ap (λ z. ok (some (words_of (pos_part padded) bytes), z))
                    (whole ∙ ap pos (sym size))),
              omega (arith, fits, size),
            )
      ]

-- The flag that is required is a slot of the plan.
abbrev pub IsSlot : ℕ → Option ℕ → Type 0
IsSlot want_len none = Unit
IsSlot want_len (some flag) = flag < want_len

is_bound-slot :
    (v : List ℤ) (flag : Option ℕ) → IsSlot (length v) flag → (b : Bool) × (is_bound v flag ≡ ok b)
unfolding is_bound
is_bound-slot v none h = (true, refl)
is_bound-slot v (some flag) h =
    let (x, e) = field-below v flag h in
    ((if pos_part x == 0 && neg_part x == 0 then false else true), rw e refl)

-- For slots that lie inside the expected layout, `_plan_request_indices` does not raise, whatever
-- the plan and the workspace hold: it returns no binding and n, or a list of at least n
-- tiles and its length.
pub plan_request_indices-IsBinding :
    (vec : Option (List ℤ)) (buf : Option (List ℕ)) (n want_len req_field : ℕ)
    (require_flag : Option ℕ)
    → 0 < want_len
    → req_field < want_len
    → IsSlot want_len require_flag
    → IsBinding n (plan_request_indices vec buf n want_len req_field require_flag)
unfolding plan_request_indices
plan_request_indices-IsBinding none buf n want_len req_field flag h k s = inl refl
plan_request_indices-IsBinding (some v) none n want_len req_field flag h k s = inl refl
plan_request_indices-IsBinding (some v) (some buf) n want_len req_field flag h k s =
    elim (Bool-cases (length v == want_len)) [
      | inl e ↦
          let size : length v ≡ want_len = ground arith in
          let (b, e') = is_bound-slot v flag (rw size s) in
          elim (Bool-cases b) [
            | inl bound ↦
                rw (e, e', bound)
                  (read_plan-IsBinding v buf n req_field (omega arith) (omega arith))
            | inr free ↦ rw (e, e', free) (inl refl)
          ]
      | inr e ↦ rw e (inl refl)
    ]
