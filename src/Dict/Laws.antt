-- ===== src/Dict/Laws.antt =====
-- What a dict holds after a write.
use sched_pass.Prelude.{
  ◌≡◌, refl, ap, subst, sym, ◌∙◌, true, false, Option, some, none, List, [], ◌∷◌, Bool-cases,
  Option-cases, inl, inr, if◌then◌else◌,
}
use sched_pass.Dict.{Keys, lookup, insert, remove, update}

-- The test on keys tells whether they are equal.
pub record IsKeys (k : Keys) : Type 0 where
  pub same_refl : (a : k.Key) → k.same a a ≡ true
  pub same_eq : (a b : k.Key) → k.same a b ≡ true → a ≡ b

module _ {ℓ} (k : Keys) (laws : IsKeys k) {A : Type ℓ} where
  open k use {Key, same}

  pub lookup-insert :
      (d : List (Key × A)) (key : Key) (value : A)
      → lookup k (insert k d key value) key ≡ some value
  unfolding lookup insert
  lookup-insert [] key value = rw (laws.same_refl key) refl
  lookup-insert ((other, old) ∷ d) key value = elim (Bool-cases (same other key)) [
    | inl e ↦ rw (e, e) refl
    | inr e ↦ rw (e, e) (lookup-insert d key value)
  ]

  pub lookup-insert_other :
      (d : List (Key × A)) (key other : Key) (value : A)
      → same key other ≡ false
      → lookup k (insert k d key value) other ≡ lookup k d other
  unfolding lookup insert
  lookup-insert_other [] key other value h = rw h refl
  lookup-insert_other ((here, old) ∷ d) key other value h = elim (Bool-cases (same here key)) [
    | inl e ↦
        let e' : same here other ≡ false = ap (λ x. same x other) (laws.same_eq here key e) ∙ h in
        rw (e, e') refl
    | inr e ↦ elim (Bool-cases (same here other)) [
      | inl e' ↦ rw (e, e') refl
      | inr e' ↦ rw (e, e') (lookup-insert_other d key other value h)
    ]
  ]

  pub lookup-insert_if :
      (d : List (Key × A)) (key other : Key) (value : A)
      → lookup k (insert k d key value) other
        ≡ (if same key other then some value else lookup k d other)
  lookup-insert_if d key other value = elim (Bool-cases (same key other)) [
    | inl e ↦
        let equal = laws.same_eq key other e in
        rw e (
          subst (λ x. lookup k (insert k d key value) x ≡ some value) equal
            (lookup-insert d key value))
    | inr e ↦ rw e (lookup-insert_other d key other value e)
  ]

  pub lookup-remove_if :
      (d : List (Key × A)) (key other : Key)
      → lookup k (remove k d key) other ≡ (if same key other then none else lookup k d other)
  unfolding lookup remove
  lookup-remove_if [] key other = elim (Bool-cases (same key other)) [
    | inl e ↦ rw e refl
    | inr e ↦ rw e refl
  ]
  lookup-remove_if ((here, value) ∷ d) key other =
      let rest = lookup-remove_if d key other in
      elim (Bool-cases (same here key)) [
        | inl e ↦ elim (Bool-cases (same key other)) [
          | inl e' ↦ rw (e, e') (rw e' at rest)
          | inr e' ↦
              let apart : same here other ≡ false =
                ap (λ x. same x other) (laws.same_eq here key e) ∙ e' in
              rw (e, e', apart) (rw e' at rest)
        ]
        | inr e ↦ elim (Bool-cases (same key other)) [
          | inl e' ↦
              let apart : same here other ≡ false =
                ap (same here) (sym (laws.same_eq key other e')) ∙ e in
              rw (e, e', apart) (rw e' at rest)
          | inr e' ↦
              rw (e, e') (ap (λ r. if same here other then some value else r) (rw e' at rest))
        ]
      ]

  -- The value that the last pair of a key has.
  abbrev pub last_value : List (Key × A) → Key → Option A
  last_value [] other = none
  last_value ((key, value) ∷ pairs) other = elim (last_value pairs other) [
    | none ↦ if same key other then some value else none
    | some last ↦ some last
  ]

  pub lookup-update :
      (d pairs : List (Key × A)) (other : Key)
      → lookup k (update k d pairs) other
        ≡ (elim (last_value pairs other) [ none ↦ lookup k d other | some last ↦ some last ])
  unfolding update
  lookup-update d [] other = refl
  lookup-update d ((key, value) ∷ pairs) other =
      let rest = lookup-update (insert k d key value) pairs other in
      elim (Option-cases (last_value pairs other)) [
        | inl e ↦
            let here = rw e at rest in
            elim (Bool-cases (same key other)) [
              | inl e' ↦ rw (e, e') (here ∙ rw e' at (lookup-insert_if d key other value))
              | inr e' ↦ rw (e, e') (here ∙ rw e' at (lookup-insert_if d key other value))
            ]
        | inr (last, e) ↦ rw e (rw e at rest)
      ]
