-- ===== src/Moe/Groups.antt =====
-- Where the slots of an expert start, in the order by expert.
use sched_pass.Prelude.{
  ℕ, zero, suc, ◌+◌, ◌<◌, ◌≡◌, refl, ap, ◌∙◌, inl, inr, List, [], ◌∷◌, length, ltb, ◌==◌, get_or,
  set, arith, Bool-cases, AllBelow, get_elem?-get_or, get_or-take, length-set, get_or-set,
}
use sched_pass.Prelude.Result.{ok}
use sched_pass.Moe.{scatter_add, cumsum, group_starts}
use sched_pass.Moe.Rank.{count}

-- `counts`: how many slots go to each expert.
pub scatter_add-count :
    (counts es : List ℕ)
    → AllBelow (length counts) es
    → (counts' : List ℕ) × (scatter_add counts es ≡ ok counts')
      × (length counts' ≡ length counts)
      × ((e : ℕ) → get_or counts' e 0 ≡ get_or counts e 0 + count (λ x. x == e) es)
unfolding scatter_add
scatter_add-count counts [] a = (counts, refl, refl, λ e. omega arith)
scatter_add-count counts (x ∷ es) a =
    let c = get_or counts x 0 in
    let found = get_elem?-get_or counts x 0 a.0 in
    let same = length-set counts x (c + 1) in
    let (counts', e, size, total) = scatter_add-count (set counts x (c + 1)) es (rw same a.1) in
    (
      counts',
      rw (found, scatter_add) e,
      size ∙ same,
      λ k. elim (Bool-cases (x == k)) [
        | inl h ↦
            let same_key : x ≡ k = ground arith in
            let stored : get_or counts x 0 ≡ get_or counts k 0 =
              ap (λ n. get_or counts n 0) same_key in
            let updated = get_or-set counts x (c + 1) k 0 a.0 in
            rw h (omega (arith, total k, rw h at updated, stored))
        | inr h ↦
            let updated = get_or-set counts x (c + 1) k 0 a.0 in
            rw h (omega (arith, total k, rw h at updated))
      ],
    )

cumsum-get_or :
    (s : ℕ) (xs : List ℕ) (e : ℕ)
    → e < length xs
    → get_or (cumsum s xs) e 0 ≡ get_or (s ∷ cumsum s xs) e 0 + get_or xs e 0
unfolding cumsum
cumsum-get_or s [] e h = absurd (omega arith)
cumsum-get_or s (x ∷ xs) zero h = refl
cumsum-get_or s (x ∷ xs) (suc e) h = cumsum-get_or (s + x) xs e (omega arith)

group_starts-get_or :
    (counts : List ℕ) (e : ℕ)
    → e < length counts
    → get_or (group_starts counts) e 0 ≡ get_or (0 ∷ cumsum 0 counts) e 0
unfolding group_starts
group_starts-get_or [] e h = absurd (omega arith)
group_starts-get_or (c ∷ counts) zero h = refl
group_starts-get_or (c ∷ counts) (suc e) h =
    get_or-take (length counts) (cumsum 0 (c ∷ counts)) e 0 (omega arith)

count_below-suc :
    (es : List ℕ) (e : ℕ)
    → count (λ x. ltb x (suc e)) es ≡ count (λ x. ltb x e) es + count (λ x. x == e) es
count_below-suc [] e = omega arith
count_below-suc (x ∷ es) e = let rest = count_below-suc es e in ground (arith, rest)

-- `grp_start`: each expert's slots start behind those of all smaller experts.
pub group_starts-count :
    (counts es : List ℕ) (e : ℕ)
    → ((k : ℕ) → get_or counts k 0 ≡ count (λ x. x == k) es)
    → e < length counts
    → get_or (group_starts counts) e 0 ≡ count (λ x. ltb x e) es
group_starts-count counts es e sums h = group_starts-get_or counts e h ∙ go e h
  where
    none_below : (l : List ℕ) → 0 ≡ count (λ x. ltb x 0) l
    none_below [] = refl
    none_below (x ∷ l) = let rest = none_below l in ground (arith, rest)

    go : (e : ℕ) → e < length counts → get_or (0 ∷ cumsum 0 counts) e 0 ≡ count (λ x. ltb x e) es
    go zero h = none_below es
    go (suc e) h =
        cumsum-get_or 0 counts e (omega arith)
        ∙ omega (arith, go e (omega arith), sums e, count_below-suc es e)
