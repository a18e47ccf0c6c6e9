-- ===== src/Prelude/Bounds.antt =====
-- Lists of numbers below a bound.
use Prim.Native.Nat.{ℕ, zero, suc, ◌+◌, ◌<◌, ◌≤◌}
use mathlib.Core.Path.{◌≡◌, refl}
use mathlib.Core.HLevel.{×_prop}
use mathlib.Core.Logic.{∥∥₁_elim}
use mathlib.Core.List.{List, [], ◌∷◌, Perm, Permᴰ, Mem, Memᴰ}
use mathlib.Core.Option.{some}
use native.Mathlib.Bridge.{le_prop}
use native.Mathlib.Omega.{arith}
use sched_pass.Prelude.Lists.{length, get_elem?, get_or, set, take, replicate}
use sched_pass.Prelude.Tests.{◌==◌, if◌then◌else◌}
use sched_pass.Prelude.Range.{range_from}

abbrev pub AllBelow : ℕ → List ℕ → Type 0
AllBelow n [] = Unit
AllBelow n (x ∷ xs) = (x < n) × AllBelow n xs

module _ (b : ℕ) where
  pub AllBelow-take : (n : ℕ) (xs : List ℕ) → AllBelow b xs → AllBelow b (take n xs)
  AllBelow-take zero xs a = tt
  AllBelow-take (suc n) [] a = tt
  AllBelow-take (suc n) (x ∷ xs) a = (a.0, AllBelow-take n xs a.1)

  pub AllBelow-range_from : (start n : ℕ) → start + n ≤ b → AllBelow b (range_from start n)
  AllBelow-range_from start zero h = tt
  AllBelow-range_from start (suc n) h =
      (omega arith, AllBelow-range_from (suc start) n (omega arith))

  AllBelow-permᴰ : {xs ys : List ℕ} → Permᴰ xs ys → AllBelow b ys → AllBelow b xs
  AllBelow-permᴰ Permᴰ.nil a = tt
  AllBelow-permᴰ (Permᴰ.cons e p) a = (rw e a.0, AllBelow-permᴰ p a.1)
  AllBelow-permᴰ (Permᴰ.swap e f) a = (rw e a.1.0, (rw f a.0, a.1.1))
  AllBelow-permᴰ (Permᴰ.trans p q) a = AllBelow-permᴰ p (AllBelow-permᴰ q a)

  AllBelow-prop : (xs : List ℕ) → IsProp (AllBelow b xs)
  AllBelow-prop [] = hlevel
  AllBelow-prop (x ∷ xs) = ×_prop le_prop (AllBelow-prop xs)

  pub AllBelow-perm : {xs ys : List ℕ} → Perm xs ys → AllBelow b ys → AllBelow b xs
  AllBelow-perm {xs} p a = ∥∥₁_elim p (AllBelow-prop xs) (λ d. AllBelow-permᴰ d a)

-- An index below the length finds an item.
pub get_elem?_below {ℓ} :
    {A : Type ℓ} (xs : List A) (i : ℕ) → i < length xs → (x : A) × (get_elem? xs i ≡ some x)
get_elem?_below [] i h = absurd (omega arith)
get_elem?_below (x ∷ xs) zero h = (x, refl)
get_elem?_below (x ∷ xs) (suc i) h = get_elem?_below xs i (omega arith)

-- A write at an index below the length is read back there, and only there.
pub get_or-set {ℓ} :
    {A : Type ℓ} (xs : List A) (i : ℕ) (v : A) (j : ℕ) (d : A)
    → i < length xs
    → get_or (set xs i v) j d ≡ (if i == j then v else get_or xs j d)
get_or-set [] i v j d h = absurd (omega arith)
get_or-set (x ∷ xs) zero v zero d h = refl
get_or-set (x ∷ xs) zero v (suc j) d h = ground arith
get_or-set (x ∷ xs) (suc i) v zero d h = ground arith
get_or-set (x ∷ xs) (suc i) v (suc j) d h = ground (arith, get_or-set xs i v j d (omega arith))

pub get_or-AllBelow :
    (b : ℕ) (xs : List ℕ) (i : ℕ) → AllBelow b xs → i < length xs → get_or xs i 0 < b
get_or-AllBelow b [] i a h = absurd (omega arith)
get_or-AllBelow b (x ∷ xs) zero a h = a.0
get_or-AllBelow b (x ∷ xs) (suc i) a h = get_or-AllBelow b xs i a.1 (omega arith)

AllBelow-memᴰ : (b : ℕ) {x : ℕ} {xs : List ℕ} → AllBelow b xs → Memᴰ x xs → x < b
AllBelow-memᴰ b a (Memᴰ.head e) = rw e a.0
AllBelow-memᴰ b a (Memᴰ.tail m) = AllBelow-memᴰ b a.1 m

pub AllBelow-mem : (b : ℕ) {xs : List ℕ} {x : ℕ} → AllBelow b xs → Mem x xs → x < b
AllBelow-mem b a m = ∥∥₁_elim m le_prop (AllBelow-memᴰ b a)

pub get_or-replicate {ℓ} : {A : Type ℓ} (n : ℕ) (a : A) (i : ℕ) → get_or (replicate n a) i a ≡ a
get_or-replicate zero a i = refl
get_or-replicate (suc n) a zero = refl
get_or-replicate (suc n) a (suc i) = get_or-replicate n a i
