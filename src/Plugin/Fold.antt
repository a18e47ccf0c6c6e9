-- ===== src/Plugin/Fold.antt =====
-- The sums that the fold of `_consume_probe` makes.
use sched_pass.Prelude.{
  ℕ, zero, suc, ◌+◌, ◌-◌, ◌%◌, min, ◌<◌, ◌≡◌, refl, ap, ◌∙◌, inl, inr, false, some, List, [], ◌∷◌,
  map, length, ◌==◌, get_or, get_elem?-get_or, get_or-set, set, take, replicate, arith, Bool-cases,
  if◌then◌else◌, AllBelow, length-set, length-replicate, get_or-replicate,
}
use sched_pass.Prelude.Int.{ℤ, pos, negsuc}
use sched_pass.Prelude.Result.{ok}
use sched_pass.Plugin.{word, clamp, scatter_add, measured_tiles, fold_cycles}

-- The cycles of the tiles of request r.
abbrev pub tile_sum : ℕ → List ℕ → List ℕ → ℕ
tile_sum r [] values = 0
tile_sum r (i ∷ idx) [] = 0
tile_sum r (i ∷ idx) (c ∷ values) = (if i == r then c else 0) + tile_sum r idx values

mod_sum : (a c s : ℕ) → ((a + c) % word + s) % word ≡ (a + (c + s)) % word
mod_sum a c s = omega arith

scatter_add-tile_sum :
    (acc idx values : List ℕ)
    → AllBelow (length acc) idx
    → (sums : List ℕ) × (scatter_add acc idx values ≡ ok sums)
      × (length sums ≡ length acc)
      × ((r : ℕ) → get_or sums r 0 % word ≡ (get_or acc r 0 + tile_sum r idx values) % word)
unfolding scatter_add
scatter_add-tile_sum acc [] values a = (acc, refl, refl, λ r. ap (λ x. x % word) (omega arith))
scatter_add-tile_sum acc (i ∷ idx) [] a = (acc, refl, refl, λ r. ap (λ x. x % word) (omega arith))
scatter_add-tile_sum acc (i ∷ idx) (c ∷ values) a =
    let old = get_or acc i 0 in
    let size = length-set acc i ((old + c) % word) in
    let (sums, e, same, total) =
      scatter_add-tile_sum (set acc i ((old + c) % word)) idx values (rw size a.1) in
    (
      sums,
      rw (get_elem?-get_or acc i 0 a.0, scatter_add) e,
      same ∙ size,
      λ r.
          let stored = get_or-set acc i ((old + c) % word) r 0 a.0 in
          elim (Bool-cases (i == r)) [
            | inl h ↦
                let key : old ≡ get_or acc r 0 = ap (λ j. get_or acc j 0) (ground arith) in
                rw h (
                  total r
                  ∙ ap (λ x. (x + tile_sum r idx values) % word) (rw h at stored)
                  ∙ mod_sum old c (tile_sum r idx values)
                  ∙ ap (λ x. (x + (c + tile_sum r idx values)) % word) key)
            | inr h ↦ rw h (
                total r
                ∙ ap (λ x. (x + tile_sum r idx values) % word) (rw h at stored)
                ∙ ap (λ x. x % word) (omega arith))
          ],
    )

clamp-AllBelow : (n : ℕ) (l : List ℤ) → 0 < n → AllBelow n (map (clamp n) l)
unfolding clamp
clamp-AllBelow n [] h = tt
clamp-AllBelow n (negsuc i ∷ l) h = (h, clamp-AllBelow n l h)
clamp-AllBelow n (pos i ∷ l) h = (omega arith, clamp-AllBelow n l h)

-- Ids of requests are not clamped.
clamp-take :
    (n m : ℕ) (ids : List ℕ) → AllBelow n ids → map (clamp n) (take m (map pos ids)) ≡ take m ids
unfolding clamp
clamp-take n zero ids a = refl
clamp-take n (suc m) [] a = refl
clamp-take n (suc m) (i ∷ ids) a =
    let inside : min i (n - 1) ≡ i = omega (arith, a.0) in
    rw inside (ap (◌∷◌ i) (clamp-take n m ids a.1))

-- For a batch of n > 0 requests, with the request of each tile given, the fold returns n sums, and
-- that of request r is, as a 64-bit word, the sum of the cycles of exactly the measured tiles that
-- served r, however many those are.
pub fold_cycles-tile_sum :
    (n ntiles : ℕ) (ids cycles : List ℕ)
    → 0 < n
    → AllBelow n ids
    → let m = measured_tiles ntiles cycles (map pos ids) in
      (sums : List ℕ) × (fold_cycles n ntiles (some (map pos ids)) cycles ≡ ok sums)
      × (length sums ≡ n)
      × ((r : ℕ) → get_or sums r 0 % word ≡ tile_sum r (take m ids) (take m cycles) % word)
unfolding fold_cycles
fold_cycles-tile_sum n ntiles ids cycles h a =
    let m = measured_tiles ntiles cycles (map pos ids) in
    let some_request : (n == 0) ≡ false = ground arith in
    let zeros : length (replicate n 0) ≡ n = length-replicate n 0 in
    let (sums, e, size, total) =
      scatter_add-tile_sum (replicate n 0) (map (clamp n) (take m (map pos ids))) (take m cycles)
        (rw zeros (clamp-AllBelow n (take m (map pos ids)) h)) in
    (
      sums,
      rw some_request e,
      size ∙ zeros,
      λ r.
          total r
          ∙ ap (λ x. (x + tile_sum r (map (clamp n) (take m (map pos ids))) (take m cycles)) % word)
              (get_or-replicate {A = ℕ} n 0 r)
          ∙ ap (λ x. x % word) (omega arith)
          ∙ ap (λ l. tile_sum r l (take m cycles) % word) (clamp-take n m ids a),
    )
