-- ===== src/Controller/Order.antt =====
-- `SchedControlPlane.order`: what it returns, and for which policies and arguments.

use sched_pass.Prelude.{
  ℕ, suc, ◌≤◌, ◌≡◌, refl, ap, subst, inl, inr, Bool, Option, none, some, List, [], ◌∷◌, map, ◌==◌,
  length, range, arith, Perm, Bool-cases, length-map, AllBelow, AllBelow-perm, AllBelow-range_from,
  get_elem?_below,
}
use sched_pass.Prelude.Result.{Result, ok, Returns}
use sched_pass.Floats.{Floats, fmax}
use sched_pass.Dict.{Keys}
use sched_pass.Sort.Laws.{sorted_by-perm}
use sched_pass.Controller.{
  Policy, lpt, srpt, edf, unknown, SchedControlPlane, sort_keys, edf_keys, elapsed_or, new_order,
  span_from, span, is_damped, predictions, settle, order,
}

module _ (f : Floats) where
  open f use {Float}

  -- The deadlines and the elapsed times cover a batch of n requests, where the policy reads them.
  abbrev pub CanOrder : Policy → Option (List Float) → Option (List Float) → ℕ → Type 0
  CanOrder lpt _ _ n = Unit
  CanOrder srpt _ _ n = Unit
  CanOrder edf none _ n = ⊥
  CanOrder edf (some deadlines) elapsed n =
      (n ≤ length deadlines) × (n ≤ length (elapsed_or f elapsed n))
  CanOrder unknown _ _ n = ⊥

  edf_keys_covered :
      (deadlines el t_hat : List Float)
      → length t_hat ≤ length deadlines
      → length t_hat ≤ length el
      → (keys : List Float) × (edf_keys f deadlines el t_hat ≡ ok keys)
        × (length keys ≡ length t_hat)
  unfolding edf_keys
  edf_keys_covered _ _ [] h k = ([], refl, refl)
  edf_keys_covered [] el (t ∷ ts) h k = absurd (omega arith)
  edf_keys_covered (d ∷ ds) [] (t ∷ ts) h k = absurd (omega arith)
  edf_keys_covered (d ∷ ds) (e ∷ es) (t ∷ ts) h k =
      let (keys, eq, size) = edf_keys_covered ds es ts (omega arith) (omega arith) in
      (f.fsub (f.fsub d e) t ∷ keys, rw eq refl, ap suc size)

  sort_keys-perm : (keys : List Float) (n : ℕ) → length keys ≡ n → Perm (sort_keys f keys) (range n)
  unfolding sort_keys
  sort_keys-perm keys n h =
      subst (λ m. Perm (sort_keys f keys) (range m)) h (sorted_by-perm _ (range (length keys)))

  -- Where the policy can order the batch, `new` is a permutation of it.
  pub new_order-perm :
      (policy : Policy) (deadlines elapsed : Option (List Float)) (t_hat : List Float)
      → CanOrder policy deadlines elapsed (length t_hat)
      → (new : List ℕ) × (new_order f policy deadlines elapsed t_hat ≡ ok new)
        × Perm new (range (length t_hat))
  unfolding new_order
  new_order-perm lpt deadlines elapsed t_hat c =
      (_, refl, sort_keys-perm (map f.fneg t_hat) (length t_hat) (length-map f.fneg t_hat))
  new_order-perm srpt deadlines elapsed t_hat c =
      (_, refl, sort_keys-perm t_hat (length t_hat) refl)
  new_order-perm edf none elapsed t_hat c = absurd c
  new_order-perm edf (some ds) elapsed t_hat c =
      let el = elapsed_or f elapsed (length t_hat) in
      let (keys, eq, size) = edf_keys_covered ds el t_hat c.0 c.1 in
      (sort_keys f keys, rw eq refl, sort_keys-perm keys (length t_hat) size)
  new_order-perm unknown deadlines elapsed t_hat c = absurd c

  span_from_below :
      (s c : Float) (t_hat : List Float) (l : List ℕ)
      → AllBelow (length t_hat) l
      → (total : Float) × (span_from f s c t_hat l ≡ ok total)
  unfolding span_from
  span_from_below s c t_hat [] a = (s, refl)
  span_from_below s c t_hat (i ∷ l) a =
      let (t, e) = get_elem?_below t_hat i a.0 in
      let (total, e') = span_from_below (f.fadd s (f.fadd c t)) (f.fadd c t) t_hat l a.1 in
      (total, rw (e, span_from) e')

  -- `_span` of a permutation of the batch does not raise.
  pub span-perm :
      (t_hat : List Float) (l : List ℕ)
      → Perm l (range (length t_hat))
      → (total : Float) × (span f t_hat l ≡ ok total)
  unfolding span
  span-perm t_hat l p =
      span_from_below _ _ t_hat l
        (AllBelow-perm _ p (AllBelow-range_from _ 0 (length t_hat) (omega arith)))

  pub is_damped-perm :
      (deadband : Float) (t_hat : List Float) (last new : List ℕ)
      → Perm last (range (length t_hat))
      → Perm new (range (length t_hat))
      → (damped : Bool) × (is_damped f deadband t_hat last new ≡ ok damped)
  unfolding is_damped
  is_damped-perm deadband t_hat last new p q =
      let (x, e) = span-perm t_hat last p in
      let (y, e') = span-perm t_hat new q in
      (f.flt (f.fsub x y) (f.fmul deadband (fmax f y f.tiny)), rw (e, e') refl)

module _ (f : Floats) (k : Keys) where
  open f use {Float}
  open k use {Key}

  -- The last order is a permutation of the batch that it was made for.
  abbrev pub HasOrder : SchedControlPlane f k → Type 0
  HasOrder c = Perm c.last_order (range (length c.last_order))

  -- The batch that `zip` makes of the requests and their lengths.
  pub length-predictions :
      (c : SchedControlPlane f k) (rids : List Key) (kv_lens : List Float)
      → length rids ≡ length kv_lens
      → length (predictions f k c rids kv_lens) ≡ length kv_lens
  unfolding predictions
  length-predictions c [] [] h = refl
  length-predictions c [] (ln ∷ kv_lens) h = absurd (omega arith)
  length-predictions c (rid ∷ rids) [] h = absurd (omega arith)
  length-predictions c (rid ∷ rids) (ln ∷ kv_lens) h =
      ap suc (length-predictions c rids kv_lens (omega arith))

  abbrev pub Ordered : ℕ → Result (List ℕ) × SchedControlPlane f k → Type 0
  Ordered n (r, c) = Returns (λ tasks. Perm tasks (range n) × (c.last_order ≡ tasks)) r

  settle-perm :
      (t_hat : List Float) (new : List ℕ) (c : SchedControlPlane f k)
      → HasOrder c
      → Perm new (range (length t_hat))
      → Ordered (length t_hat) (settle f k t_hat new c)
  unfolding settle
  settle-perm t_hat new c last p = elim (Bool-cases (length c.last_order == length t_hat)) [
    | inl e ↦
        let size : length c.last_order ≡ length t_hat = ground arith in
        let q : Perm c.last_order (range (length t_hat)) = rw size at last in
        let (damped, e') = is_damped-perm f c.deadband t_hat c.last_order new q p in
        elim (Bool-cases damped) [
          | inl d ↦ rw (e, e', d) (q, refl)
          | inr d ↦ rw (e, e', d) (p, refl)
        ]
    | inr e ↦ rw e (p, refl)
  ]

  -- `order` returns a permutation of the batch and keeps it as the last order, for each policy
  -- that can order the batch, and whatever the predictions are, NaN included.
  pub order-perm :
      (rids : List Key) (kv_lens : List Float) (deadlines elapsed : Option (List Float))
      (c : SchedControlPlane f k)
      → HasOrder c
      → length rids ≡ length kv_lens
      → CanOrder f c.policy deadlines elapsed (length kv_lens)
      → Ordered (length kv_lens) (order f k rids kv_lens deadlines elapsed c)
  unfolding order
  order-perm rids kv_lens deadlines elapsed c last h can =
      let t_hat = predictions f k c rids kv_lens in
      let size = length-predictions c rids kv_lens h in
      let can' : CanOrder f c.policy deadlines elapsed (length t_hat) = rw size can in
      let (new, e, p) = new_order-perm f c.policy deadlines elapsed t_hat can' in
      rw (e, order)
        (subst (λ m. Ordered m (settle f k t_hat new c)) size (settle-perm t_hat new c last p))
