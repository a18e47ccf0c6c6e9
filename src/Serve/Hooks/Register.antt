-- ===== src/Serve/Hooks/Register.antt =====
-- `register`: what a second call does, and what a failed one leaves.
use Prim.Native.String.{String}
use sched_pass.Prelude.{ℕ, ◌≡◌, ◌≢◌, refl, true, false, Option, inl, inr, Bool-cases}
use sched_pass.Prelude.Result.{Result, ok, err, Result-cases}
use sched_pass.Floats.{Floats}
use sched_pass.Env.{Environ, Formats}
use sched_pass.Serve.Plane.{pre_arm_env}
use sched_pass.Serve.Hooks.{Process, import_registry, register}

module _ {f : Floats} where
  -- the part of a first call after the arming
  after_import :
      (imported : Result (Unit {0})) (environ : Environ) (p : Process f)
      → let (r, q) = import_registry imported environ p in
        (q.registered ≡ true)
        × (imported ≢ ok tt → q.hooks ≡ p.hooks)
        × (r ≢ ok tt → q.hooks ≡ p.hooks)
  unfolding import_registry
  after_import (ok tt) environ p = (refl, λ n. absurd (n refl), λ n. absurd (n refl))
  after_import (err e) environ p = (refl, λ _. refl, λ _. refl)

  module _ (formats : Formats) (parse parse_any : String → Option ℕ) where
    register_again :
        (imported : Result (Unit {0})) (p : Process f)
        → p.registered ≡ true
        → register formats parse parse_any imported p ≡ (ok tt, p)
    unfolding register
    register_again imported p h = rw (register, h) refl

    -- What a first call leaves: the flag, and the hooks as they were unless it returns, which it does
    -- only if the import does.
    register_first :
        (imported : Result (Unit {0})) (p : Process f)
        → p.registered ≡ false
        → let (r, q) = register formats parse parse_any imported p in
          (q.registered ≡ true)
          × (imported ≢ ok tt → q.hooks ≡ p.hooks)
          × (r ≢ ok tt → q.hooks ≡ p.hooks)
    unfolding register
    register_first imported p h =
        elim (Result-cases (pre_arm_env formats parse parse_any p.serve.environ)) [
          | inr (e, failed) ↦ rw (register, h, failed) (refl, λ _. refl, λ _. refl)
          | inl (environ, armed) ↦ rw (register, h, armed) (after_import imported environ p)
        ]

    register-registered :
        (imported : Result (Unit {0})) (p : Process f)
        → (register formats parse parse_any imported p).1.registered ≡ true
    register-registered imported p = elim (Bool-cases p.registered) [
      | inl e ↦ rw (register_again imported p e) e
      | inr e ↦ (register_first imported p e).0
    ]

    -- A call that raises, or whose import would, registers no hook.
    register-hooks :
        (imported : Result (Unit {0})) (p : Process f)
        → let (r, q) = register formats parse parse_any imported p in
          (imported ≢ ok tt → q.hooks ≡ p.hooks) × (r ≢ ok tt → q.hooks ≡ p.hooks)
    register-hooks imported p = elim (Bool-cases p.registered) [
      | inl e ↦ rw (register_again imported p e) (λ _. refl, λ _. refl)
      | inr e ↦ let (_, a, b) = register_first imported p e in (a, b)
    ]

  -- `register` takes effect once: whatever the first call does, a second one, under any circumstances,
  -- returns and changes nothing. So also where the first call raises, in the arming or in the import of
  -- SGLang's registry, in which case no hook is registered by either.
  pub register-register :
      (formats formats' : Formats) (parse parse' parse_any parse_any' : String → Option ℕ)
      (imported imported' : Result (Unit {0})) (p : Process f)
      → let (r, first) = register formats parse parse_any imported p in
        (register formats' parse' parse_any' imported' first ≡ (ok tt, first))
        × (imported ≢ ok tt → first.hooks ≡ p.hooks)
        × (r ≢ ok tt → first.hooks ≡ p.hooks)
  register-register formats formats' parse parse' parse_any parse_any' imported imported' p =
      let first = (register formats parse parse_any imported p).1 in
      let (a, b) = register-hooks formats parse parse_any imported p in
      (
        register_again formats' parse' parse_any' imported' first
            (register-registered formats parse parse_any imported p),
        a,
        b,
      )
