-- ===== src/Moe/Register.antt =====
-- python/sched_moe_hook.py, `register_moe_cap`: what it makes of the layer's `forward`.
use sched_pass.Prelude.{
  ℕ, suc, Bool, true, false, not, ◌||◌, ◌==◌, List, [], ◌∷◌, ◌++◌, if◌then◌else◌,
}
use sched_pass.Prelude.Result.{Result, ok, err, value_error}

-- A function object: the layer's own one, or a wrapper that caps and then calls another. Each call of
-- `register_moe_cap` makes a new object, so that wrappers are told apart by their numbers.
pub data Forward : Type 0 where
  original : Forward
  capping : ℕ → Forward → Forward

-- `==` of function objects
unfoldable pub same_object : Forward → Forward → Bool
same_object original original = true
same_object original (capping _ _) = false
same_object (capping _ _) original = false
same_object (capping m _) (capping n _) = m == n

-- `FusedMoE.forward`, the values of `_ORIG`, and how many wrappers there are
pub record Layer : Type 0 where
  pub forward : Forward
  pub saved : List Forward
  pub made : ℕ

-- `f in _ORIG.values()`
unfoldable pub is_saved : Forward → List Forward → Bool
unfolding same_object
is_saved f [] = false
is_saved f (g ∷ saved) = same_object g f || is_saved f saved

unfoldable pub wrap : Layer → Layer
wrap layer = record {
  forward = capping layer.made layer.forward;
  saved = layer.saved ++ layer.forward ∷ [];
  made = suc layer.made;
}

-- `enabled` is the test of SCHED_MOE_CAP, `importable` whether the layer can be imported, and `parsed`
-- whether the capacity and the minimum are numbers.
unfoldable pub register_moe_cap : Bool → Bool → Bool → Layer → Result Bool × Layer
unfolding is_saved wrap
register_moe_cap enabled importable parsed layer =
    if not enabled || not importable
    then (ok false, layer)
    else if is_saved layer.forward layer.saved
    then (ok true, layer)
    else if parsed
    then (ok true, wrap layer)
    else (err value_error, layer)
