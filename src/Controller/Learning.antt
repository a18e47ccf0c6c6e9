-- ===== src/Controller/Learning.antt =====
-- What `SchedControlPlane.observe` learns from the measured requests of a step.
use sched_pass.Prelude.{
  ℕ, ◌+◌, ◌≡◌, refl, ap, ◌∙◌, inl, inr, ◌⊎◌, Bool, true, false, List, [], ◌∷◌, map, length, arith,
  Bool-cases, if◌then◌else◌,
}
use sched_pass.Floats.{Floats, fsum_from}
use sched_pass.Dict.{Keys, lookup}
use sched_pass.Dict.Laws.{IsKeys, lookup-insert_other}
use sched_pass.Controller.{Fit, SchedControlPlane, add, observe_one, observe}

module _ (f : Floats) (k : Keys) where
  open f use {Float, zero_float, fle, fmul}
  open k use {Key, same}

  -- The lengths and cycles of the requests that `zip` pairs and that were measured.
  abbrev pub points : List Key → List Float → List Float → List (Float × Float)
  points [] _ _ = []
  points (_ ∷ _) [] _ = []
  points (_ ∷ _) (_ ∷ _) [] = []
  points (rid ∷ rids) (ln ∷ kv_lens) (cy ∷ cycles) =
      if fle cy zero_float
      then points rids kv_lens cycles
      else (ln, cy) ∷ points rids kv_lens cycles

  -- A fit with these points in addition: their number, and the four sums over them in their order.
  abbrev pub with_points : Fit f → List (Float × Float) → Fit f
  with_points fit pts = record {
    n = fit.n + length pts;
    sx = fsum_from f fit.sx (map (λ p. p.0) pts);
    sy = fsum_from f fit.sy (map (λ p. p.1) pts);
    sxx = fsum_from f fit.sxx (map (λ p. fmul p.0 p.0) pts);
    sxy = fsum_from f fit.sxy (map (λ p. fmul p.0 p.1) pts);
  }

  -- The request is not among those measured.
  abbrev pub Unmeasured : Key → List Key → List Float → Type 0
  Unmeasured key [] _ = Unit
  Unmeasured key (_ ∷ _) [] = Unit
  Unmeasured key (rid ∷ rids) (cy ∷ cycles) =
      ((fle cy zero_float ≡ true) ⊎ (same rid key ≡ false)) × Unmeasured key rids cycles

  with_points-nil : (fit : Fit f) → fit ≡ with_points fit []
  unfolding fsum_from
  with_points-nil fit =
      ap (λ (n : ℕ). record { n = n; sx = fit.sx; sy = fit.sy; sxx = fit.sxx; sxy = fit.sxy })
        (omega arith)

  with_points-add :
      (ln cy : Float) (fit : Fit f) (pts : List (Float × Float))
      → with_points (add f ln cy fit) pts ≡ with_points fit ((ln, cy) ∷ pts)
  unfolding add fsum_from
  with_points-add ln cy fit pts =
      let fit' = with_points (add f ln cy fit) pts in
      ap (λ (n : ℕ). record { n = n; sx = fit'.sx; sy = fit'.sy; sxx = fit'.sxx; sxy = fit'.sxy })
        (omega arith)

  observe_one-fit :
      (rid : Key) (ln cy : Float) (c : SchedControlPlane f k)
      → (observe_one f k rid ln cy c).fit ≡ (if fle cy zero_float then c.fit else add f ln cy c.fit)
  unfolding observe_one
  observe_one-fit rid ln cy c = elim (Bool-cases (fle cy zero_float)) [
    | inl e ↦ rw e refl
    | inr e ↦ rw e refl
  ]

  -- The fit has exactly the measured points in addition.
  observe-fit :
      (rids : List Key) (kv_lens cycles : List Float) (c : SchedControlPlane f k)
      → (observe f k rids kv_lens cycles c).fit ≡ with_points c.fit (points rids kv_lens cycles)
  unfolding observe
  observe-fit [] kv_lens cycles c = with_points-nil c.fit
  observe-fit (rid ∷ rids) [] cycles c = with_points-nil c.fit
  observe-fit (rid ∷ rids) (ln ∷ kv_lens) [] c = with_points-nil c.fit
  observe-fit (rid ∷ rids) (ln ∷ kv_lens) (cy ∷ cycles) c =
      let pts = points rids kv_lens cycles in
      let one = observe_one-fit rid ln cy c in
      let rest = observe-fit rids kv_lens cycles (observe_one f k rid ln cy c) in
      elim (Bool-cases (fle cy zero_float)) [
        | inl e ↦
            let kept : (observe_one f k rid ln cy c).fit ≡ c.fit =
              one ∙ ap (λ (b : Bool). if b then c.fit else add f ln cy c.fit) e in
            rw e (rest ∙ ap (λ (fit : Fit f). with_points fit pts) kept)
        | inr e ↦
            let added : (observe_one f k rid ln cy c).fit ≡ add f ln cy c.fit =
              one ∙ ap (λ (b : Bool). if b then c.fit else add f ln cy c.fit) e in
            rw e (
              rest
              ∙ ap (λ (fit : Fit f). with_points fit pts) added
              ∙ with_points-add ln cy c.fit pts)
      ]

  module _ (laws : IsKeys k) where
    observe_one-lookup :
        (rid key : Key) (ln cy : Float) (c : SchedControlPlane f k)
        → (fle cy zero_float ≡ true) ⊎ (same rid key ≡ false)
        → lookup k (observe_one f k rid ln cy c).resid key ≡ lookup k c.resid key
    unfolding observe_one
    observe_one-lookup rid key ln cy c (inl e) = rw e refl
    observe_one-lookup rid key ln cy c (inr e) = elim (Bool-cases (fle cy zero_float)) [
      | inl e' ↦ rw e' refl
      | inr e' ↦ rw e' (lookup-insert_other k laws c.resid rid key _ e)
    ]

    -- `observe` keeps the residual of each request that it has no measurement of.
    observe-lookup :
        (rids : List Key) (kv_lens cycles : List Float) (key : Key) (c : SchedControlPlane f k)
        → Unmeasured key rids cycles
        → lookup k (observe f k rids kv_lens cycles c).resid key ≡ lookup k c.resid key
    unfolding observe
    observe-lookup [] kv_lens cycles key c u = refl
    observe-lookup (rid ∷ rids) [] cycles key c u = refl
    observe-lookup (rid ∷ rids) (ln ∷ kv_lens) [] key c u = refl
    observe-lookup (rid ∷ rids) (ln ∷ kv_lens) (cy ∷ cycles) key c u =
        observe-lookup rids kv_lens cycles key (observe_one f k rid ln cy c) u.1
        ∙ observe_one-lookup rid key ln cy c u.0

    -- `observe` adds to the fit exactly the requests with a positive measurement: its count grows by
    -- their number, and its four sums by their lengths, their cycles, the squares of the lengths and
    -- the products of the two, in the order of the requests. It keeps the residual of each request that
    -- it has no positive measurement of.
    pub observe-learned :
        (rids : List Key) (kv_lens cycles : List Float) (c : SchedControlPlane f k)
        → ((observe f k rids kv_lens cycles c).fit ≡ with_points c.fit (points rids kv_lens cycles))
          × ((key : Key)
              → Unmeasured key rids cycles
              → lookup k (observe f k rids kv_lens cycles c).resid key ≡ lookup k c.resid key)
    observe-learned rids kv_lens cycles c =
        (observe-fit rids kv_lens cycles c, λ key. observe-lookup rids kv_lens cycles key c)
