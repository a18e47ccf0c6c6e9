-- ===== src/Tests/Doubles.antt =====
-- Floats like Python's for whole numbers: exact up to 2 ^ 53, and above it a value that compares false.
use sched_pass.Prelude.{
  ◌∙◌, ◌-◌, sym, ap, subst, ℕ, ◌+◌, ◌/◌, ◌≤◌, ◌≡◌, refl, Bool, true, false, Option, none, some,
  if◌then◌else◌, leb, ltb, arith,
}
use sched_pass.Prelude.Int.{ℤ, pos, negsuc, pos_part, neg_part, ◌+ℤ◌, ◌-ℤ◌, ◌*ℤ◌, ltb_ℤ, leb_ℤ}
use sched_pass.Floats.{Floats, fmax}
use sched_pass.Controller.Damping.{DampsNoGain}
use sched_pass.Controller.Frozen.{IsExact}
use sched_pass.Dict.{Keys}

abbrev pub limit : ℕ
limit = 9007199254740992

-- the whole number, where it is exact
abbrev rounded : ℤ → Option ℤ
rounded a = if leb (pos_part a + neg_part a) limit then some a else none

abbrev apply : (ℤ → ℤ → ℤ) → Option ℤ → Option ℤ → Option ℤ
apply op (some a) (some b) = rounded (op a b)
apply op _ _ = none

abbrev compare_by : (ℤ → ℤ → Bool) → Option ℤ → Option ℤ → Bool
compare_by test (some a) (some b) = test a b
compare_by test _ _ = false

abbrev negated : ℤ → ℤ
negated a = pos 0 -ℤ a

abbrev map_float : (ℤ → ℤ) → Option ℤ → Option ℤ
map_float op none = none
map_float op (some a) = some (op a)

abbrev to_whole : Option ℤ → ℤ
to_whole none = pos 0
to_whole (some a) = a

abbrev pub doubles : Floats
doubles = record {
  Float = Option ℤ;
  zero_float = some (pos 0);
  one_float = some (pos 1);
  tiny = some (pos 1);
  of_int = λ n. rounded (pos n);
  to_int = to_whole;
  fadd = apply ◌+ℤ◌;
  fsub = apply ◌-ℤ◌;
  fmul = apply ◌*ℤ◌;
  fdiv = apply (λ a b. pos (pos_part a / pos_part b));
  fneg = map_float negated;
  fabs = map_float (λ a. pos (pos_part a + neg_part a));
  flt = compare_by ltb_ℤ;
  fle = compare_by leb_ℤ;
}

abbrev pub IsWhole : Option ℤ → Type 0
IsWhole none = ⊥
IsWhole (some a) = pos_part a + neg_part a ≤ limit

abbrev pub IsCount : Option ℤ → Type 0
IsCount none = ⊥
IsCount (some (pos n)) = n ≤ limit
IsCount (some (negsuc _)) = ⊥

abbrev pub count_value : Option ℤ → ℕ
count_value none = 0
count_value (some a) = pos_part a

module _ (k : Keys) where
  pub doubles-DampsNoGain : DampsNoGain doubles k IsWhole (some (pos 1))
  unfolding ◌-ℤ◌ ◌*ℤ◌
  doubles-DampsNoGain none h = absurd h
  doubles-DampsNoGain (some (pos a)) h = ground arith
  doubles-DampsNoGain (some (negsuc a)) h = ground arith

rounded-whole : (n : ℕ) → n ≤ limit → rounded (pos n) ≡ some (pos n)
rounded-whole n h =
    let small : leb (n + 0) limit ≡ true = ground arith in
    ap (λ (b : Bool). if b then some (pos n) else none) small

add_pos : (a b : ℕ) → (pos a +ℤ pos b) ≡ pos (a + b)
unfolding ◌+ℤ◌
add_pos a b =
    let natural : leb 0 (a + b) ≡ true = ground arith in
    let same : a + b - 0 ≡ a + b = omega arith in
    ap (λ (t : Bool). if t then pos (a + b - 0) else negsuc (0 - (a + b) - 1)) natural ∙ ap pos same

pub IsCount-fadd :
    (x y : Option ℤ)
    → IsCount x
    → IsCount y
    → count_value x + count_value y ≤ limit
    → IsCount (doubles.fadd x y) × (count_value (doubles.fadd x y) ≡ count_value x + count_value y)
unfolding ◌+ℤ◌
IsCount-fadd none y h k l = absurd h
IsCount-fadd (some (negsuc a)) y h k l = absurd h
IsCount-fadd (some (pos a)) none h k l = absurd k
IsCount-fadd (some (pos a)) (some (negsuc b)) h k l = absurd k
IsCount-fadd (some (pos a)) (some (pos b)) h k l =
    let exact = ap rounded (add_pos a b) ∙ rounded-whole (a + b) l in
    (subst IsCount (sym exact) l, ap count_value exact)

pub count_neg_order :
    (x y : Option ℤ)
    → IsCount x
    → IsCount y
    → doubles.flt (doubles.fneg x) (doubles.fneg y) ≡ ltb (count_value y) (count_value x)
unfolding ◌-ℤ◌
count_neg_order none y h k = absurd h
count_neg_order (some (negsuc a)) y h k = absurd h
count_neg_order (some (pos a)) none h k = absurd k
count_neg_order (some (pos a)) (some (negsuc b)) h k = absurd k
count_neg_order (some (pos a)) (some (pos b)) h k = ground arith

pub count_no_gain :
    (x y : Option ℤ)
    → IsCount x
    → IsCount y
    → count_value x ≤ count_value y
    → doubles.flt (doubles.fsub x y) (doubles.fmul (some (pos 1)) (fmax doubles y (some (pos 1))))
      ≡ true
unfolding ◌-ℤ◌ ◌*ℤ◌
count_no_gain none y h k l = absurd h
count_no_gain (some (negsuc a)) y h k l = absurd h
count_no_gain (some (pos a)) none h k l = absurd k
count_no_gain (some (pos a)) (some (negsuc b)) h k l = absurd k
count_no_gain (some (pos a)) (some (pos b)) h k l = ground arith

abbrev pub doubles_exact : IsExact doubles (some (pos 1))
doubles_exact = record {
  IsCount = IsCount;
  value = count_value;
  limit = limit;
  zero_count = omega arith;
  zero_value = refl;
  add_count = λ x y h k l. (IsCount-fadd x y h k l).0;
  add_value = λ x y h k l. (IsCount-fadd x y h k l).1;
  neg_order = count_neg_order;
  no_gain = count_no_gain;
}
