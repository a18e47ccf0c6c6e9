-- ===== src/Serve/Hooks.antt =====
-- python/sched_sglang_plugin.py, the registration: the hooks as SGLang calls them, which catch what
-- the control loop raises, and `register`.
pub mod Errors
pub mod Register
use Prim.Native.String.{String}
use text.Mathlib.Text.{◌==◌ as text_eq}
use sched_pass.Prelude.{
  ℕ, ◌+◌, Bool, true, false, not, ◌||◌, Option, none, some, List, [], ◌∷◌, ◌++◌, if◌then◌else◌,
}
use sched_pass.Prelude.Result.{Result, ok, err}
use sched_pass.Floats.{Floats}
use sched_pass.Torch.{Torch}
use sched_pass.Tensors.{Tensors}
use sched_pass.Dict.{lookup, lookup_or, remove}
use sched_pass.Env.{Environ, Formats, texts, bake_keys, is_set}
use sched_pass.Serve.Batch.{AttnMode, attn_mode}
use sched_pass.Serve.State.{is_some, Serve, World}
use sched_pass.Serve.Plane.{ensure_plane, pre_arm_env}
use sched_pass.Serve.Probe.{on_batch_end}
use sched_pass.Serve.Enforce.{weaves_prefill, on_batch_begin}

-- the places that catch an exception
pub data Site : Type 0 where
  moe_arm begin end : Site

unfoldable pub same_site : Site → Site → Bool
same_site moe_arm moe_arm = true
same_site begin begin = true
same_site end end = true
same_site _ _ = false

unfoldable pub is_seen : List Site → Site → Bool
unfolding same_site
is_seen [] site = false
is_seen (other ∷ seen) site = same_site other site || is_seen seen site

-- A printed line: the first error of a site, or a later one, which only SCHED_DEBUG prints.
pub data Line : Type 0 where
  degraded : Site → Line
  repeated : Site → Line

-- what a registration asks of SGLang's registry: the hook and its target
pub data Hook : Type 0 where
  init_hook before_hook after_hook : Hook

-- `_STATE` with the entries that only the hooks use, the printed errors and SGLang's registry
pub record Process (f : Floats) : Type 0 where
  pub serve : Serve f
  pub hook_errors : ℕ
  pub hook_err_seen : List Site
  pub lines : List Line
  pub moe_armed : Bool
  pub registered : Bool
  pub hooks : List Hook

-- `os.environ.get(key) == "1"`
unfoldable pub is_one : Environ → String → Bool
unfolding lookup
is_one environ key = text_eq (lookup_or texts environ key "") "1"

-- `os.environ.pop(k, None)` for each key
unfoldable pub pop_all : Environ → List String → Environ
unfolding remove
pop_all environ [] = environ
pop_all environ (key ∷ keys) = pop_all (remove texts environ key) keys

-- `register`, below its guard and the arming: what is imported may be missing.
unfoldable pub install_hooks : Environ → List Hook
unfolding is_one
install_hooks environ =
    (if is_one environ "SCHED_NO_INIT_HOOK" then [] else init_hook ∷ [])
    ++ before_hook ∷ after_hook ∷ []

module _ {f : Floats} where
  unfoldable pub hook_error : Site → Process f → Process f
  unfolding is_seen is_set
  hook_error site p =
      let counted = record p { hook_errors = p.hook_errors + 1 } in
      if is_seen p.hook_err_seen site
      then (if is_set p.serve.environ "SCHED_DEBUG"
          then record counted { lines = p.lines ++ repeated site ∷ [] }
          else counted)
      else record counted {
        hook_err_seen = p.hook_err_seen ++ site ∷ [];
        lines = p.lines ++ degraded site ∷ [];
      }

  -- `except Exception as e: _hook_error(where, e)`, around what left the given state
  unfoldable pub caught : {A : Type 0} → Site → Process f → Result A × Serve f → Process f
  unfolding hook_error
  caught site p (ok _, s) = record p { serve = s }
  caught site p (err _, s) = hook_error site (record p { serve = s })

  -- the arming of the expert cap, at the first batch; `moe_cap` is what `register_moe_cap` does.
  unfoldable pub arm_moe : Result Bool → Process f → Process f
  unfolding caught
  arm_moe moe_cap p =
      if p.moe_armed then p else caught moe_arm (record p { moe_armed = true }) (moe_cap, p.serve)

  -- `if _attn_mode(batch):`
  unfoldable pub has_mode : World → Process f → Bool
  unfolding attn_mode weaves_prefill is_some
  has_mode w p = is_some (attn_mode (weaves_prefill p.serve.environ) w.batch)

  unfoldable pub after : World → Process f → Process f
  unfolding has_mode caught on_batch_end is_one
  after w p =
      if is_one p.serve.environ "SCHED_HOOKS_NOOP"
      then p
      else if has_mode w p
      then caught end p (on_batch_end w p.serve)
      else p

  unfoldable pub disarmed : Result (Unit {0}) × Serve f → Serve f
  unfolding pop_all
  disarmed (ok _, s) = s
  disarmed (err _, s) = record s { environ = pop_all s.environ bake_keys }

  unfoldable pub before_init : World → Process f → Process f
  unfolding disarmed ensure_plane
  before_init w p = record p { serve = disarmed (ensure_plane w 1 p.serve) }

  -- `register` after `pre_arm_env`; `imported` is what the import of SGLang's registry does.
  unfoldable pub import_registry :
      Result (Unit {0}) → Environ → Process f → Result (Unit {0}) × Process f
  unfolding install_hooks
  import_registry imported environ p =
      let armed = record p { registered = true; serve = record p.serve { environ = environ } } in
      elim imported [
        | err e ↦ (err e, armed)
        | ok _ ↦ (ok tt, record armed { hooks = p.hooks ++ install_hooks environ })
      ]

  -- `register`; its first three parameters are those of `pre_arm_env`.
  unfoldable pub register :
      Formats
      → (String → Option ℕ)
      → (String → Option ℕ)
      → Result (Unit {0})
      → Process f
      → Result (Unit {0}) × Process f
  register formats parse parse_any imported p =
      if p.registered
      then (ok tt, p)
      else elim (pre_arm_env formats parse parse_any p.serve.environ) [
        | err e ↦ (err e, record p { registered = true })
        | ok environ ↦ import_registry imported environ p
      ]

module _ {f : Floats} {t : Torch} (x : Tensors f t) where
  unfoldable pub before : Result Bool → World → Process f → Process f
  unfolding arm_moe has_mode caught on_batch_begin is_one
  before moe_cap w p =
      let p' = arm_moe moe_cap p in
      if is_one p.serve.environ "SCHED_HOOKS_NOOP"
      then p
      else if has_mode w p'
      then caught begin p' (on_batch_begin x w p'.serve)
      else p'
