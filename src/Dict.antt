-- ===== src/Dict.antt =====
-- Python's dict, as an association list: a key that is there keeps its place and takes the new
-- value, a new key comes last. Keys are compared by a test that is a parameter.
pub mod Laws
use sched_pass.Prelude.{Bool, Option, none, some, List, [], ◌∷◌, if◌then◌else◌}

pub record Keys : Type 1 where
  pub Key : Type 0
  pub same : Key → Key → Bool

module _ {ℓ} (k : Keys) {A : Type ℓ} where
  open k use {Key, same}

  -- `d.get(key)`
  unfoldable pub lookup : List (Key × A) → Key → Option A
  lookup [] key = none
  lookup ((other, value) ∷ d) key =
      let rest = lookup d key in if same other key then some value else rest

  -- `d[key] = value`
  unfoldable pub insert : List (Key × A) → Key → A → List (Key × A)
  insert [] key value = (key, value) ∷ []
  insert ((other, old) ∷ d) key value =
      let rest = insert d key value in
      if same other key then (other, value) ∷ d else (other, old) ∷ rest

  -- `d.pop(key, None)`
  unfoldable pub remove : List (Key × A) → Key → List (Key × A)
  remove [] key = []
  remove ((other, value) ∷ d) key =
      let rest = remove d key in if same other key then rest else (other, value) ∷ rest

  -- `d[key] = value` for each pair, from the left
  unfoldable pub update : List (Key × A) → List (Key × A) → List (Key × A)
  unfolding insert
  update d [] = d
  update d ((key, value) ∷ pairs) = update (insert d key value) pairs

  -- `d.get(key, default)`
  abbrev pub lookup_or : List (Key × A) → Key → A → A
  lookup_or d key default = elim (lookup d key) [ none ↦ default | some value ↦ value ]
