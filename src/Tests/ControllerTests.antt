-- ===== src/Tests/ControllerTests.antt =====
-- The controller on whole numbers as floats: a run, and its properties on a batch of three.
use mathlib.Core.List.Perm
use sched_pass.Prelude.{
  Option, List, ℕ, ◌<◌, ◌≡◌, refl, none, some, [], ◌∷◌, get_or, range, arith, Perm, ◌==◌,
}
use sched_pass.Prelude.Int.{ℤ, pos, ◌+ℤ◌, ◌*ℤ◌}
use sched_pass.Prelude.Result.{Result, ok, err, Returns}
use sched_pass.Dict.{Keys, lookup}
use sched_pass.Dict.Laws.{IsKeys}
use sched_pass.Sort.{sorted_by}
use sched_pass.Rt.Plane.{fresh}
use sched_pass.Rt.Plane.Valid.{fresh-IsValid}
use sched_pass.Rt.Plane.Table.{order_entry}
use sched_pass.Rt.Plane.Arm.{num_tasks_word}
use sched_pass.Tests.Doubles.{doubles}
use sched_pass.Tests.Instances.{whole_floats}
use sched_pass.Controller.{
  SchedControlPlane, lpt, predict_one, coeffs, order, predictions, observe, step, new_order, settle,
  sort_keys, span,
}
use sched_pass.Controller.Order.{HasOrder, Ordered, order-perm}
use sched_pass.Controller.Step.{step-order_entry}
use sched_pass.Controller.Learning.{points, with_points, Unmeasured, observe-learned}

abbrev numbered : Keys
numbered = record { Key = ℕ; same = ◌==◌ }

numbered-IsKeys : IsKeys numbered
numbered-IsKeys = record { same_refl = λ a. ground arith; same_eq = λ a b h. ground arith }

-- A controller with an order for two requests that was made when the first was the longer one.
abbrev started : SchedControlPlane whole_floats numbered
started = record {
  policy = lpt;
  ewma = pos 1;
  deadband = pos 1;
  fit = record { n = 0; sx = pos 0; sy = pos 0; sxx = pos 0; sxy = pos 0 };
  resid = [];
  gamma = pos 1;
  last_order = 0 ∷ 1 ∷ [];
}

started-HasOrder : HasOrder whole_floats numbered started
started-HasOrder = Perm.rfl

order_run :
    (order whole_floats numbered (7 ∷ 8 ∷ 9 ∷ []) (pos 5 ∷ pos 9 ∷ pos 6 ∷ []) none none started).0
    ≡ ok (1 ∷ 2 ∷ 0 ∷ [])
unfolding order new_order settle sort_keys predictions predict_one coeffs sorted_by lookup ◌+ℤ◌ ◌*ℤ◌
order_run = refl

-- The same on floats that are exact up to 2 ^ 53 and no further.
abbrev exactly : ℕ → Option ℤ
exactly n = some (pos n)

abbrev on_doubles : SchedControlPlane doubles numbered
on_doubles = record {
  policy = lpt;
  ewma = exactly 1;
  deadband = exactly 1;
  fit = record { n = 0; sx = exactly 0; sy = exactly 0; sxx = exactly 0; sxy = exactly 0 };
  resid = [];
  gamma = exactly 1;
  last_order = 0 ∷ 1 ∷ [];
}

order-perm_example :
    Ordered whole_floats numbered 3
      (order whole_floats numbered (7 ∷ 8 ∷ 9 ∷ []) (pos 5 ∷ pos 9 ∷ pos 6 ∷ []) none none started)
order-perm_example =
    order-perm whole_floats numbered (7 ∷ 8 ∷ 9 ∷ []) (pos 5 ∷ pos 9 ∷ pos 6 ∷ []) none none started
      started-HasOrder refl tt

-- a value that is whole, where there is one
abbrev IfReturned : {A : Type 0} → (A → Type 0) → Result A → Type 0
IfReturned P (ok a) = P a
IfReturned P (err e) = Unit

batch_new : Result (List ℕ)
batch_new =
    new_order doubles lpt none none
      (predictions doubles numbered on_doubles (7 ∷ 8 ∷ []) (exactly 5 ∷ exactly 9 ∷ []))

batch_span : List ℕ → Result (Option ℤ)
batch_span new =
    span doubles (predictions doubles numbered on_doubles (7 ∷ 8 ∷ []) (exactly 5 ∷ exactly 9 ∷ []))
      new

step-order_entry_example :
    let (r, c', p') =
      step whole_floats numbered
        (7 ∷ 8 ∷ 9 ∷ [])
        (pos 5 ∷ pos 9 ∷ pos 6 ∷ [])
        (some (pos 50 ∷ pos 0 ∷ pos 60 ∷ []))
        none
        none
        started
        (fresh 4) in
    Returns
      (λ tasks.
        Perm tasks (range 3)
        × (c'.last_order ≡ tasks)
        × (num_tasks_word p' ≡ 3)
        × ((i : ℕ) → i < 3 → order_entry p' i ≡ get_or tasks i 0))
      r
step-order_entry_example =
    step-order_entry whole_floats numbered (7 ∷ 8 ∷ 9 ∷ []) (pos 5 ∷ pos 9 ∷ pos 6 ∷ [])
      (some (pos 50 ∷ pos 0 ∷ pos 60 ∷ [])) none none started (fresh 4) started-HasOrder refl tt
      (fresh-IsValid 4 (omega arith)) refl (omega arith) (omega arith)

observe-learned_example :
    ((observe whole_floats numbered
        (7 ∷ 8 ∷ [])
        (pos 5 ∷ pos 9 ∷ [])
        (pos 50 ∷ pos 0 ∷ [])
        started).fit
      ≡ with_points whole_floats numbered started.fit
          (points whole_floats numbered (7 ∷ 8 ∷ []) (pos 5 ∷ pos 9 ∷ []) (pos 50 ∷ pos 0 ∷ [])))
    × ((key : ℕ)
        → Unmeasured whole_floats numbered key (7 ∷ 8 ∷ []) (pos 50 ∷ pos 0 ∷ [])
        → lookup numbered
            (observe whole_floats numbered
              (7 ∷ 8 ∷ [])
              (pos 5 ∷ pos 9 ∷ [])
              (pos 50 ∷ pos 0 ∷ [])
              started).resid
            key
          ≡ lookup numbered started.resid key)
observe-learned_example =
    observe-learned whole_floats numbered numbered-IsKeys (7 ∷ 8 ∷ []) (pos 5 ∷ pos 9 ∷ [])
      (pos 50 ∷ pos 0 ∷ []) started
