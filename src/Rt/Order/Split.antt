-- ===== src/Rt/Order/Split.antt =====
-- `region_order` above its guard: the strided writes, and the three parts of the sorted tiles.
use mathlib.Core.List.{perm_middle, Pairwise-append, mem-append_left}
use mathlib.Core.List.Perm
use sched_pass.Prelude.{
  ℕ, zero, suc, ◌+◌, ◌-◌, ◌/◌, ◌<◌, ◌≤◌, ◌≡◌, refl, sym, ap, ◌∙◌, ◌||◌, false, List, Mem, Pairwise,
  get_or, Option, none, some, [], ◌∷◌, ◌++◌, Perm, if◌then◌else◌, leb, ◌==◌, length, take, drop,
  range, reverse, take-append-drop, length-take, length-drop, take_all, drop_all, length-reverse,
  arith, append_comm, reverse-perm, length-perm, Bool-cases, inl, inr, append_assoc, append-nil,
  drop-drop, length-range_from, ◌≡⟨◌⟩◌, ◌∎,
}
use sched_pass.Torch.{Torch, IsTorch}
use sched_pass.Rt.Order.{set_evens, set_odds, slice, split_region, region_order}
use sched_pass.Rt.Order.Grouped.{grouped_lpt-perm}
use sched_pass.Prelude.Int.{ℤ, pos, negsuc}

-- Heaviest, lightest, second heaviest, second lightest, …
abbrev pub alternate : List ℕ → List ℕ → List ℕ
alternate [] ls = []
alternate (h ∷ hs) [] = h ∷ hs
alternate (h ∷ hs) (l ∷ ls) = h ∷ l ∷ alternate hs ls

set_evens-nil : (pre : List ℕ) → set_evens pre [] ≡ pre
unfolding set_evens
set_evens-nil [] = refl
set_evens-nil (x ∷ []) = refl
set_evens-nil (x ∷ y ∷ pre) = refl

set_odds-nil : (pre : List ℕ) → set_odds pre [] ≡ pre
unfolding set_odds
set_odds-nil [] = refl
set_odds-nil (x ∷ pre) = ap (◌∷◌ x) (set_evens-nil pre)

set_evens-cons :
    (y : ℕ) (rest : List ℕ) (v : ℕ) (vs : List ℕ)
    → set_evens (y ∷ rest) (v ∷ vs) ≡ v ∷ set_odds rest vs
unfolding set_odds
set_evens-cons y [] v vs = refl
set_evens-cons y (z ∷ rest) v vs = refl

-- The two strided writes fill a buffer of their joint size with `alternate`.
set_odds-set_evens :
    (pre hs ls : List ℕ)
    → length pre ≡ length hs + length ls
    → length ls ≤ length hs
    → length hs ≤ length ls + 1
    → set_odds (set_evens pre hs) ls ≡ alternate hs ls
unfolding set_odds
set_odds-set_evens [] [] [] e p q = refl
set_odds-set_evens [] [] (l ∷ ls) e p q = absurd (omega arith)
set_odds-set_evens (x ∷ pre) [] ls e p q = absurd (omega arith)
set_odds-set_evens [] (h ∷ hs) ls e p q = absurd (omega arith)
set_odds-set_evens (x ∷ []) (h ∷ []) [] e p q = refl
set_odds-set_evens (x ∷ []) (h ∷ []) (l ∷ ls) e p q = absurd (omega arith)
set_odds-set_evens (x ∷ []) (h ∷ h' ∷ hs) ls e p q = absurd (omega arith)
set_odds-set_evens (x ∷ y ∷ pre) (h ∷ hs) [] e p q = absurd (omega arith)
set_odds-set_evens (x ∷ y ∷ pre) (h ∷ hs) (l ∷ ls) e p q = ap (◌∷◌ h) (
    set_evens-cons y (set_evens pre hs) l ls
    ∙ ap (◌∷◌ l) (set_odds-set_evens pre hs ls (omega arith) (omega arith) (omega arith)))

alternate-perm : (hs ls : List ℕ) → length ls ≤ length hs → Perm (alternate hs ls) (hs ++ ls)
alternate-perm [] [] p = Perm.rfl
alternate-perm [] (l ∷ ls) p = absurd (omega arith)
alternate-perm (h ∷ hs) [] p = rw (append-nil hs) Perm.rfl
alternate-perm (h ∷ hs) (l ∷ ls) p =
    Perm.cons h (
      Perm.trans (Perm.cons l (alternate-perm hs ls (omega arith))) (Perm.symm (perm_middle hs ls)))

-- The sorted tiles in three parts: the first `nh`, the last `nl` and what lies between.
three_parts :
    (nh nl n : ℕ) (l : List ℕ)
    → nh + nl ≤ n
    → take nh l ++ (slice nh (n - nl) l ++ drop (n - nl) l) ≡ l
unfolding slice
three_parts nh nl n l h =
    let k = n - nl - nh in
    let e : n - nl ≡ nh + k = omega arith in
    take nh l ++ (take k (drop nh l) ++ drop (n - nl) l)
    ≡⟨ ap (λ d. take nh l ++ (take k (drop nh l) ++ drop d l)) e ⟩
      take nh l ++ (take k (drop nh l) ++ drop (nh + k) l)
    ≡⟨ ap (λ r. take nh l ++ (take k (drop nh l) ++ r)) (sym (drop-drop k nh l)) ⟩
      take nh l ++ (take k (drop nh l) ++ drop k (drop nh l))
    ≡⟨ ap (◌++◌ (take nh l)) (take-append-drop k (drop nh l)) ⟩ take nh l ++ drop nh l
    ≡⟨ take-append-drop nh l ⟩ l ∎

-- What the two strided writes and the slice leave, for a buffer of the size of the prefix.
region_buffer :
    (pre l : List ℕ) (nh nl n : ℕ)
    → n ≡ length l
    → length pre ≡ nh + nl
    → nh + nl ≤ n
    → nl ≤ nh
    → nh ≤ nl + 1
    → (if nl == 0
          then set_evens pre (take nh l)
          else set_odds (set_evens pre (take nh l)) (reverse (drop (n - nl) l)))
        ++ (if nl == 0 then drop nh l else slice nh (n - nl) l)
      ≡ alternate (take nh l) (reverse (drop (n - nl) l)) ++ slice nh (n - nl) l
unfolding slice
region_buffer pre l nh zero n e size fits low high =
    let none_left : drop (n - 0) l ≡ [] = drop_all (n - 0) l (omega arith) in
    let whole : take (n - 0 - nh) (drop nh l) ≡ drop nh l =
      take_all (n - 0 - nh) (drop nh l) (omega (arith, length-drop nh l)) in
    let filled : set_odds (set_evens pre (take nh l)) [] ≡ alternate (take nh l) [] =
      set_odds-set_evens pre (take nh l) [] (omega (arith, length-take nh l)) (omega arith)
        (omega (arith, length-take nh l)) in
    rw (none_left, whole, ← filled, set_odds-nil)
region_buffer pre l nh (suc nl) n e size fits low high =
    let light = drop (n - suc nl) l in
    let len : length (reverse light) ≡ suc nl =
      length-reverse light ∙ length-drop (n - suc nl) l ∙ omega arith in
    let filled : set_odds (set_evens pre (take nh l)) (reverse light)
        ≡ alternate (take nh l) (reverse light) =
      set_odds-set_evens pre (take nh l) (reverse light) (omega (arith, length-take nh l))
        (omega (arith, length-take nh l)) (omega (arith, length-take nh l)) in
    let some_left : (suc nl == 0) ≡ false = ground arith in
    rw some_left (ap (λ b. b ++ take (n - suc nl - nh) (drop nh l)) filled)

module _ (t : Torch) where
  open t use {Scalar, zero_scalar, below, argsort}

  -- The sorted tiles of the prefix, costly and cheap, and those of the suffix.
  abbrev pub heavies : List Scalar → ℕ → List ℕ
  heavies c r = take ((r + 1) / 2) (argsort c)

  abbrev pub lights : List Scalar → ℕ → List ℕ
  lights c r = drop (length c - r / 2) (argsort c)

  pub middle : List Scalar → ℕ → List ℕ
  unfolding slice
  middle c r = slice ((r + 1) / 2) (length c - r / 2) (argsort c)

  -- The cost of tile i is not below the cost of tile j.
  abbrev pub NotBelow : List Scalar → ℕ → ℕ → Type 0
  NotBelow c i j = below (get_or c i zero_scalar) (get_or c j zero_scalar) ≡ false

module _ (t : Torch) (laws : IsTorch t) where
  open t use {Scalar, argsort, empty}

  length-argsort : (c : List Scalar) → length (argsort c) ≡ length c
  length-argsort c = length-perm (laws.argsort_perm c) ∙ length-range_from 0 (length c)

  split_region-layout :
      (c : List Scalar) (r : ℕ)
      → 0 < r
      → r < length c
      → split_region t c r ≡ alternate (heavies t c r) (reverse (lights t c r)) ++ middle t c r
  unfolding split_region middle
  split_region-layout c r p q =
      let e : r - (r + 1) / 2 ≡ r / 2 = omega arith in
      rw e (
        region_buffer (empty r) (argsort c) ((r + 1) / 2) (r / 2) (length c)
          (sym (length-argsort c)) (laws.length_empty r ∙ omega arith) (omega arith) (omega arith)
          (omega arith))

  parts :
      (c : List Scalar) (r : ℕ)
      → r < length c
      → heavies t c r ++ (middle t c r ++ lights t c r) ≡ argsort c
  unfolding middle
  parts c r q = three_parts ((r + 1) / 2) (r / 2) (length c) (argsort c) (omega arith)

  split_region-perm :
      (c : List Scalar) (r : ℕ)
      → 0 < r
      → r < length c
      → Perm (split_region t c r) (range (length c))
  split_region-perm c r p q =
      let light = lights t c r in
      let size = length-argsort c in
      let fits : length (reverse light) ≤ length (heavies t c r) = omega (
        arith,
        length-reverse light,
        length-take ((r + 1) / 2) (argsort c),
        length-drop (length c - r / 2) (argsort c),
      ) in
      let suffix : Perm (reverse light ++ middle t c r) (middle t c r ++ light) =
        Perm.trans (append_comm (reverse light) (middle t c r))
          (Perm.append_left (middle t c r) (reverse-perm light)) in
      let prefix : Perm (alternate (heavies t c r) (reverse light))
          (heavies t c r ++ reverse light) =
        alternate-perm (heavies t c r) (reverse light) fits in
      let mixed : Perm (alternate (heavies t c r) (reverse light) ++ middle t c r)
          (heavies t c r ++ (middle t c r ++ light)) =
        Perm.trans (Perm.append_right (middle t c r) prefix)
          (rw (append_assoc (heavies t c r)) (Perm.append_left (heavies t c r) suffix)) in
      rw (split_region-layout c r p q) (Perm.trans mixed (rw (parts c r q) (laws.argsort_perm c)))

  -- `region_order` gives a permutation of the tiles 0 … n-1, whatever the costs, the prefix size R
  -- and the block size are, negative ones included: each tile is issued exactly once.
  pub region_order-perm :
      (env_block : ℤ) (c : List Scalar) (r : ℤ) (block : Option ℤ)
      → Perm (region_order t env_block c r block) (range (length c))
  unfolding region_order
  region_order-perm env_block c (negsuc _) none = grouped_lpt-perm t laws c env_block
  region_order-perm env_block c (negsuc _) (some b) = grouped_lpt-perm t laws c b
  region_order-perm env_block c (pos r) block = elim (Bool-cases (r == 0 || leb (length c) r)) [
    | inl e ↦ rw e (grouped_lpt-perm t laws c (elim block [ none ↦ env_block | some b ↦ b ]))
    | inr e ↦ rw e (split_region-perm c r (ground arith) (ground arith))
  ]

  -- With R resident slots and more tiles than that, the prefix of R slots holds the ceil(R/2)
  -- costliest tiles and the floor(R/2) cheapest ones in turn, the costliest first and the cheapest
  -- second; the rest follow, the costliest first. No tile of the rest costs more than a heavy one
  -- of the prefix or less than a light one.
  pub region_order-extremes :
      (env_block : ℤ) (c : List Scalar) (r : ℕ) (block : Option ℤ)
      → 0 < r
      → r < length c
      → (region_order t env_block c (pos r) block
          ≡ alternate (heavies t c r) (reverse (lights t c r)) ++ middle t c r)
        × (length (heavies t c r) + length (lights t c r) ≡ r)
        × Pairwise (NotBelow t c) (middle t c r)
        × ((i j : ℕ) → Mem i (heavies t c r) → Mem j (middle t c r) → NotBelow t c i j)
        × ((i j : ℕ) → Mem i (middle t c r) → Mem j (lights t c r) → NotBelow t c i j)
  unfolding region_order
  region_order-extremes env_block c r block p q =
      let guard : (r == 0 || leb (length c) r) ≡ false = ground arith in
      let size = length-argsort c in
      let not_below_prop : (i j : ℕ) → IsProp (NotBelow t c i j) = λ i j. hlevel in
      let sorted : Pairwise (NotBelow t c) (heavies t c r ++ (middle t c r ++ lights t c r)) =
        rw (parts c r q) (laws.argsort_descends c) in
      let (_, tail, heavy_first) = (Pairwise-append not_below_prop).0 sorted in
      let (inner, _, light_last) = (Pairwise-append not_below_prop).0 tail in
      (
        rw guard (split_region-layout c r p q),
        omega (
          arith,
          length-take ((r + 1) / 2) (argsort c),
          length-drop (length c - r / 2) (argsort c),
        ),
        inner,
        λ i j m k. heavy_first i m j (mem-append_left (lights t c r) k),
        λ i j m k. light_last i m j k,
      )
