-- ===== src/Sort.antt =====
-- Python's `sorted(items, key=...)`: a stable sort, as an insertion sort that is driven by one
-- Boolean test on two items. `before a b` says that the key of `a` is strictly below that of `b`.
pub mod Laws
use sched_pass.Prelude.{Bool, List, [], ◌∷◌, if◌then◌else◌}

module _ {ℓ} {A : Type ℓ} (before : A → A → Bool) where
  -- `x` stood in front of all of `ys` in the input, so it goes in front of what equals it.
  unfoldable pub insert_by : A → List A → List A
  insert_by x [] = x ∷ []
  insert_by x (y ∷ ys) = if before y x then y ∷ insert_by x ys else x ∷ y ∷ ys

  unfoldable pub sorted_by : List A → List A
  unfolding insert_by
  sorted_by [] = []
  sorted_by (x ∷ xs) = insert_by x (sorted_by xs)
