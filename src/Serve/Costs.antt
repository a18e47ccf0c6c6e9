-- ===== src/Serve/Costs.antt =====
-- python/sched_sglang_plugin.py, `on_batch_begin`: the predicted costs of the requests and of their
-- tiles, and the test that arms the claim loop.
use sched_pass.Prelude.{
  ℕ, ◌-◌, Bool, true, false, ◌&&◌, Option, none, some, List, [], ◌∷◌, map, if◌then◌else◌, ltb, ◌==◌,
  length, get_elem?, replicate,
}
use sched_pass.Prelude.Int.{ℤ, pos, negsuc, ltb_ℤ}
use sched_pass.Prelude.Result.{Result, ok, err, runtime_error, index_error, of_option, ◌>>=◌}
use sched_pass.Dict.{lookup, lookup_or}
use sched_pass.Floats.{Floats}
use sched_pass.Torch.{Torch}
use sched_pass.Tensors.{Tensors}
use sched_pass.Plugin.{clamp}
use sched_pass.Controller.{SchedControlPlane, coeffs, uncertainty}
use sched_pass.Serve.State.{Serve, on, auto, off, unknown, slot_keys}

-- `l[i]` of a Python list, where a negative index counts from the end
unfoldable pub index : {A : Type 0} → List A → ℤ → Result A
index l (pos i) = of_option index_error (get_elem? l i)
index l (negsuc i) =
    if ltb i (length l)
    then of_option index_error (get_elem? l (length l - 1 - i))
    else err index_error

-- `min(i, n - 1)`
unfoldable pub last_or : ℕ → ℤ → ℤ
last_or n (negsuc i) = negsuc i
last_or n (pos i) = if n == 0 then negsuc 0 else pos (if ltb i n then i else n - 1)

module _ {f : Floats} {t : Torch} (x : Tensors f t) where
  open f use {Float, zero_float, one_float, flt}
  open x use {of_float, item, scale, shift, plus, clamp_min, largest, mean, divide, millionth}

  -- `kv_list`, of a batch of n requests
  unfoldable pub kv_list_of : Option (List t.Scalar) → ℕ → List Float
  kv_list_of none n = replicate n one_float
  kv_list_of (some kvlen) n = map item kvlen

  -- `cost_req_t`
  unfoldable pub request_costs :
      SchedControlPlane f slot_keys → List ℕ → List Float → Result (List t.Scalar)
  unfolding lookup
  request_costs ctl slots kv_list = do
    let (alpha, beta) = coeffs f ctl.fit
    let kv_t = map of_float kv_list
    let resid_t = map (λ r. of_float (lookup_or slot_keys ctl.resid r zero_float)) slots
    sum ← of_option runtime_error (plus (map (λ kv. shift (scale alpha kv) beta) kv_t) resid_t)
    ok (map (clamp_min zero_float) sum)

  -- `cost_req_t[idx]`
  unfoldable pub gather : List t.Scalar → List ℕ → Result (List t.Scalar)
  gather costs [] = ok []
  gather costs (i ∷ idx) =
      let rest = gather costs idx in
      do c ← of_option index_error (get_elem? costs i); cs ← rest; ok (c ∷ cs)

  -- `cost_tile_t`; without a request the clamped indices are -1, which no tensor here has.
  unfoldable pub tile_costs : ℕ → Option (List ℤ) → List t.Scalar → Result (List t.Scalar)
  unfolding gather
  tile_costs n none costs = ok costs
  tile_costs n (some tile_to_req) costs =
      if n == 0
      then (if length tile_to_req == 0 then ok [] else err index_error)
      else gather costs (map (clamp n) tile_to_req)

  unfoldable pub imbalance_of : List t.Scalar → ℕ → Result Float
  imbalance_of costs ntiles =
      let ratio = λ (c : t.Scalar). item (divide c (clamp_min millionth (mean costs))) in
      if ntiles == 0
      then ok one_float
      else elim (largest costs) [ none ↦ err runtime_error | some c ↦ ok (ratio c) ]

  -- `arm`
  unfoldable pub is_armed : Serve f → List ℕ → List Float → ℕ → Float → Bool
  is_armed s slots kv_list ntiles imbalance = elim s.clc [
    | on ↦ true
    | auto ↦
        ltb_ℤ (pos 0) s.clc_r
        && (ltb_ℤ s.clc_r (pos ntiles)
            && (flt s.clc_imbalance imbalance
                && flt s.clc_resid (uncertainty f slot_keys s.ctl slots kv_list)))
    | off ↦ false
    | unknown ↦ false
  ]
