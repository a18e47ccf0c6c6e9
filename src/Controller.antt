-- ===== src/Controller.antt =====
-- python/sched_controller.py: `_Fit`, an incremental least-squares fit, and `SchedControlPlane`,
-- the estimator and the ordering policy, with the step that writes the plane.
pub mod Order
pub mod Completion
pub mod Damping
pub mod Frozen
pub mod Step
pub mod Learning
use sched_pass.Prelude.{
  ℕ, ◌+◌, Bool, Option, none, some, List, [], ◌∷◌, map, if◌then◌else◌, ltb, ◌==◌, length, get_elem?,
  get_or, range, replicate, ◌&&◌,
}
use sched_pass.Prelude.Result.{Result, ok, err, value_error, index_error, ◌>>=◌}
use sched_pass.Floats.{Floats, fmax, fsum}
use sched_pass.Dict.{Keys, lookup, lookup_or, insert}
use sched_pass.Sort.{sorted_by}
use sched_pass.Rt.Plane.{SchedPlane, Action, ◌>>◌ as sequence, set_order, set_num_tasks, push}

-- `self.policy`: one of the three names, or any other string
pub data Policy : Type 0 where
  lpt srpt edf unknown : Policy

pub record Fit (f : Floats) : Type 0 where
  pub n : ℕ
  pub sx : f.Float
  pub sy : f.Float
  pub sxx : f.Float
  pub sxy : f.Float

pub record SchedControlPlane (f : Floats) (k : Keys) : Type 0 where
  pub policy : Policy
  pub ewma : f.Float
  pub deadband : f.Float
  pub fit : Fit f
  -- rid → EWMA residual cycles
  pub resid : List (k.Key × f.Float)
  pub gamma : f.Float
  pub last_order : List ℕ

module _ (f : Floats) where
  open f use {Float, zero_float, one_float, tiny, of_int, fadd, fsub, fmul, fdiv, flt, fle, fneg}

  -- `_Fit.add`
  pub add : Float → Float → Fit f → Fit f
  add x y fit = record {
    n = fit.n + 1;
    sx = fadd fit.sx x;
    sy = fadd fit.sy y;
    sxx = fadd fit.sxx (fmul x x);
    sxy = fadd fit.sxy (fmul x y);
  }

  proportional : Fit f → Float × Float
  proportional fit =
      if flt zero_float fit.sx then (fdiv fit.sy fit.sx, zero_float) else (one_float, zero_float)

  -- `_Fit.coeffs`
  unfoldable pub coeffs : Fit f → Float × Float
  unfolding proportional
  coeffs fit =
      let n = of_int fit.n in
      let den = fsub (fmul n fit.sxx) (fmul fit.sx fit.sx) in
      let alpha = fdiv (fsub (fmul n fit.sxy) (fmul fit.sx fit.sy)) den in
      if ltb fit.n 2
      then proportional fit
      else if fle den zero_float
      then proportional fit
      else (alpha, fdiv (fsub fit.sy (fmul alpha fit.sx)) n)

  -- `sorted(range(n), key=lambda i: keys[i])`
  unfoldable pub sort_keys : List Float → List ℕ
  sort_keys keys =
      sorted_by (λ i j. flt (get_or keys i zero_float) (get_or keys j zero_float))
        (range (length keys))

  -- `deadlines[i] - el[i] - t_hat[i]`, for each i
  edf_keys : List Float → List Float → List Float → Result (List Float)
  edf_keys _ _ [] = ok []
  edf_keys [] _ (_ ∷ _) = err index_error
  edf_keys (_ ∷ _) [] (_ ∷ _) = err index_error
  edf_keys (d ∷ deadlines) (e ∷ el) (t ∷ t_hat) =
      let rest = edf_keys deadlines el t_hat in do keys ← rest; ok (fsub (fsub d e) t ∷ keys)

  -- `elapsed or [0.0] * n`
  pub elapsed_or : Option (List Float) → ℕ → List Float
  elapsed_or none n = replicate n zero_float
  elapsed_or (some []) n = replicate n zero_float
  elapsed_or (some (e ∷ el)) n = e ∷ el

  -- `new`, by the policy
  unfoldable pub new_order :
      Policy → Option (List Float) → Option (List Float) → List Float → Result (List ℕ)
  unfolding sort_keys edf_keys elapsed_or
  new_order lpt deadlines elapsed t_hat = ok (sort_keys (map fneg t_hat))
  new_order srpt deadlines elapsed t_hat = ok (sort_keys t_hat)
  new_order edf none elapsed t_hat = err value_error
  new_order edf (some deadlines) elapsed t_hat = do
    keys ← edf_keys deadlines (elapsed_or elapsed (length t_hat)) t_hat
    ok (sort_keys keys)
  new_order unknown deadlines elapsed t_hat = err value_error

  span_from : Float → Float → List Float → List ℕ → Result Float
  span_from s c t_hat [] = ok s
  span_from s c t_hat (i ∷ order) = elim (get_elem? t_hat i) [
    | none ↦ err index_error
    | some t ↦ span_from (fadd s (fadd c t)) (fadd c t) t_hat order
  ]

  -- `_span`
  unfoldable pub span : List Float → List ℕ → Result Float
  unfolding span_from
  span t_hat order = span_from zero_float zero_float t_hat order

  -- the test of the dead-band: whether the new order gains too little over the last one
  unfoldable pub is_damped : Float → List Float → List ℕ → List ℕ → Result Bool
  unfolding span
  is_damped deadband t_hat last new = do
    old_span ← span t_hat last
    new_span ← span t_hat new
    ok (flt (fsub old_span new_span) (fmul deadband (fmax f new_span tiny)))

module _ (f : Floats) (k : Keys) where
  open f use {Float, zero_float, one_float, of_int, fadd, fsub, fmul, fdiv, flt, fle, fabs}
  open k use {Key}

  unfoldable pub predict_one : SchedControlPlane f k → Float → Option Key → Float
  unfolding coeffs lookup
  predict_one c kv_len rid =
      let (alpha, beta) = coeffs f c.fit in
      let t = fadd (fmul alpha kv_len) beta in
      fmax f (elim rid [ none ↦ t | some r ↦ fadd t (lookup_or k c.resid r zero_float) ]) zero_float

  -- the body of `observe`'s loop
  pub observe_one : Key → Float → Float → SchedControlPlane f k → SchedControlPlane f k
  unfolding add predict_one insert
  observe_one rid ln cy c =
      if fle cy zero_float
      then c
      else (let c' = record c { fit = add f ln cy c.fit } in
          let pred = predict_one c' ln none in
          let r = lookup_or k c.resid rid zero_float in
          record c' {
            resid =
                insert k c.resid rid
                  (fadd (fmul (fsub one_float c.ewma) r) (fmul c.ewma (fsub cy pred)));
          })

  pub observe : List Key → List Float → List Float → SchedControlPlane f k → SchedControlPlane f k
  unfolding observe_one
  observe (rid ∷ rids) (ln ∷ kv_lens) (cy ∷ cycles) c =
      observe rids kv_lens cycles (observe_one rid ln cy c)
  observe _ _ _ c = c

  pub observe_step : Float → Float → SchedControlPlane f k → SchedControlPlane f k
  observe_step predicted measured c =
      let g = fdiv measured predicted in
      if flt zero_float predicted && flt zero_float measured
      then record c { gamma = fadd (fmul (fsub one_float c.ewma) c.gamma) (fmul c.ewma g) }
      else c

  -- `preds` and `resids` of `uncertainty`
  doubts : SchedControlPlane f k → List Key → List Float → List (Float × Float)
  unfolding predict_one lookup
  doubts c (rid ∷ rids) (ln ∷ kv_lens) =
      let p = predict_one c ln none in
      (p, elim (lookup k c.resid rid) [ none ↦ p | some r ↦ fabs r ]) ∷ doubts c rids kv_lens
  doubts c _ _ = []

  mean : List Float → Float
  unfolding fsum
  mean xs = fdiv (fsum f xs) (of_int (length xs))

  pub uncertainty : SchedControlPlane f k → List Key → List Float → Float
  unfolding doubts mean
  uncertainty c rids kv_lens =
      let ds = doubts c rids kv_lens in
      let preds = map (λ d. d.0) ds in
      let mp = if length preds == 0 then zero_float else mean preds in
      if flt zero_float mp then fdiv (mean (map (λ d. d.1) ds)) mp else one_float

  -- `t_hat` of `order`
  unfoldable pub predictions : SchedControlPlane f k → List Key → List Float → List Float
  unfolding predict_one
  predictions c (rid ∷ rids) (ln ∷ kv_lens) =
      predict_one c ln (some rid) ∷ predictions c rids kv_lens
  predictions c _ _ = []

  -- `order` from `new` on: the hysteresis
  unfoldable pub settle :
      List Float → List ℕ → SchedControlPlane f k → Result (List ℕ) × SchedControlPlane f k
  unfolding is_damped
  settle t_hat new c =
      if length c.last_order == length t_hat
      then elim (is_damped f c.deadband t_hat c.last_order new) [
        | err e ↦ (err e, c)
        | ok damped ↦
            if damped then (ok c.last_order, c) else (ok new, record c { last_order = new })
      ]
      else (ok new, record c { last_order = new })

  unfoldable pub order :
      List Key
      → List Float
      → Option (List Float)
      → Option (List Float)
      → SchedControlPlane f k
      → Result (List ℕ) × SchedControlPlane f k
  unfolding predictions new_order settle
  order rids kv_lens deadlines elapsed c =
      let t_hat = predictions c rids kv_lens in
      elim (new_order f c.policy deadlines elapsed t_hat) [
        | err e ↦ (err e, c)
        | ok new ↦ settle t_hat new c
      ]

  -- `plane.set_order(order)`, `plane.set_num_tasks(len(order))`, `plane.push()`
  pub install : List ℕ → Action (Unit {0})
  install tasks = sequence (sequence (set_order tasks) (set_num_tasks (length tasks))) push

  pub step :
      List Key
      → List Float
      → Option (List Float)
      → Option (List Float)
      → Option (List Float)
      → SchedControlPlane f k
      → SchedPlane
      → Result (List ℕ) × SchedControlPlane f k × SchedPlane
  unfolding observe order install
  step rids kv_lens cycles deadlines elapsed c plane =
      let c' : SchedControlPlane f k = elim cycles [
        | none ↦ c
        | some cy ↦ observe rids kv_lens cy c
      ] in
      let (ordered, c'') = order rids kv_lens deadlines elapsed c' in
      elim ordered [
        | err e ↦ (err e, c'', plane)
        | ok tasks ↦
            let (done, plane') = install tasks plane in
            elim done [ err e ↦ (err e, c'', plane') | ok _ ↦ (ok tasks, c'', plane') ]
      ]
