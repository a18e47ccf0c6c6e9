-- ===== src/Controller/Damping.antt =====
-- The hysteresis of `SchedControlPlane.order` on a repeated call.

use sched_pass.Prelude.{ℕ, ◌≡◌, refl, ap, true, Option, some, List, [], ◌∷◌}
use sched_pass.Prelude.Result.{ok}
use sched_pass.Floats.{Floats, fmax}
use sched_pass.Dict.{Keys}
use sched_pass.Controller.{
  SchedControlPlane, new_order, span, predict_one, predictions, settle, order,
}

module _ (f : Floats) (k : Keys) where
  open f use {Float}
  open k use {Key}

  -- The predictions do not read the last order.
  pub predictions-last_order :
      (c : SchedControlPlane f k) (l : List ℕ) (rids : List Key) (kv_lens : List Float)
      → predictions f k (record c { last_order = l }) rids kv_lens ≡ predictions f k c rids kv_lens
  unfolding predictions predict_one
  predictions-last_order c l [] kv_lens = refl
  predictions-last_order c l (rid ∷ rids) [] = refl
  predictions-last_order c l (rid ∷ rids) (ln ∷ kv_lens) =
      ap (◌∷◌ (predict_one f k c ln (some rid))) (predictions-last_order c l rids kv_lens)

  -- The test of the dead-band holds of two equal spans, where they are finite: then x - x is 0, and
  -- a dead-band that is positive, times at least 1e-9, is not. On infinity and NaN it does not hold.
  abbrev pub DampsNoGain : (Float → Type 0) → Float → Type 0
  DampsNoGain IsFinite deadband =
      (x : Float) → IsFinite x → f.flt (f.fsub x x) (f.fmul deadband (fmax f x f.tiny)) ≡ true

  -- The span of an order is finite.
  abbrev pub HasFiniteSpan : (Float → Type 0) → List Float → List ℕ → Type 0
  HasFiniteSpan IsFinite t_hat tasks = (x : Float) → span f t_hat tasks ≡ ok x → IsFinite x

  -- `order` on the state with another last order, where `new` is computed.
  pub order-last_order :
      (rids : List Key) (kv_lens : List Float) (deadlines elapsed : Option (List Float))
      (c : SchedControlPlane f k) (l new : List ℕ)
      → new_order f c.policy deadlines elapsed (predictions f k c rids kv_lens) ≡ ok new
      → order f k rids kv_lens deadlines elapsed (record c { last_order = l })
        ≡ settle f k (predictions f k c rids kv_lens) new (record c { last_order = l })
  unfolding order
  order-last_order rids kv_lens deadlines elapsed c l new e =
      rw (order, predictions-last_order c l rids kv_lens, e) refl
