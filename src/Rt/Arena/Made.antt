-- ===== src/Rt/Arena/Made.antt =====
-- The constructor of `SchedArena` as a whole, and the processes that it and `close` reach.
use Prim.Native.String.{String}
use sched_pass.Prelude.{ℕ, ◌≡◌, ◌≢◌, subst, refl, ap, ◌∙◌, sym, inl, inr, Option, none, some}
use sched_pass.Prelude.Result.{Exception, Result, ok, err, runtime_error, Result-cases}
use sched_pass.Prelude.Exec.{◌>>=◌}
use sched_pass.Prelude.Exec.Ensures.{EndsIn}
use sched_pass.Env.{Environ}
use sched_pass.Rt.Arena.{
  HostProcess, Answers, requested_base, predicted_base, construct, make_arena, close, close_all,
  fresh_process,
}
use sched_pass.Rt.Arena.Construct.{IsIdle, IsMade, construct-Ensures}
use sched_pass.Rt.Arena.Sound.{IsSound, close-IsSound, close_all-idle, close_all-open}

err≢ok : {A : Type 0} {x : Exception} {a : A} → err x ≢ ok a
err≢ok e = cc

-- what is requested without an argument
predicted :
    (parse : String → Option ℕ) (env : Environ) (va_base : Option ℕ) {requested : ℕ}
    → va_base ≡ none
    → requested_base parse env va_base ≡ ok requested
    → predicted_base parse env ≡ ok requested
unfolding predicted_base requested_base
predicted parse env va_base {requested} n e =
    subst (λ (v : Option ℕ). requested_base parse env v ≡ ok requested) n e

module _ (parse : String → Option ℕ) (env : Environ) (va_base : Option ℕ) (w : Answers) where
  -- the constructor with and without an instance, by what `requested_base` gives
  make_arena-refused :
      (p : HostProcess) (ref : ℕ)
      → p.instance_ref ≡ some ref
      → make_arena parse env va_base w p ≡ (err runtime_error, p)
  unfolding make_arena ◌>>=◌
  make_arena-refused p ref h = rw (make_arena, h) refl

  make_arena-err :
      (p : HostProcess) {e : Exception}
      → p.instance_ref ≡ none
      → requested_base parse env va_base ≡ err e
      → make_arena parse env va_base w p ≡ (err e, p)
  unfolding make_arena ◌>>=◌
  make_arena-err p h r = rw (make_arena, h, r) refl

  make_arena-first :
      (p : HostProcess) {requested : ℕ}
      → p.instance_ref ≡ none
      → requested_base parse env va_base ≡ ok requested
      → make_arena parse env va_base w p ≡ construct w requested p
  unfolding make_arena ◌>>=◌
  make_arena-first p h r = rw (make_arena, h, r) refl

  EndsIn-IsSound :
      (requested : ℕ) (end : Result (Unit {0}) × HostProcess)
      → EndsIn (λ _. IsMade w requested) IsIdle end
      → IsSound end.1
  EndsIn-IsSound requested (ok _, p) made = inr (made.ref, made.arena, made.opened)
  EndsIn-IsSound requested (err _, p) idle = inl idle

  make_arena-IsSound : (p : HostProcess) → IsSound p → IsSound (make_arena parse env va_base w p).1
  make_arena-IsSound p (inr (ref, arena, h)) =
      rw (make_arena-refused p ref h.instance_is) (inr (ref, arena, h))
  make_arena-IsSound p (inl idle) = elim (Result-cases (requested_base parse env va_base)) [
    | inl (requested, r) ↦ rw (make_arena-first p idle.no_instance r) (
        EndsIn-IsSound requested (construct w requested p)
          ((construct-Ensures w requested).ends p idle))
    | inr (e, r) ↦ rw (make_arena-err p idle.no_instance r) (inl idle)
  ]

  -- A construction in a process with nothing open, where it returns.
  idle-IsMade :
      (p q : HostProcess)
      → IsIdle p
      → make_arena parse env va_base w p ≡ (ok tt, q)
      → (requested : ℕ) × (requested_base parse env va_base ≡ ok requested) × IsMade w requested q
  idle-IsMade p q idle e = elim (Result-cases (requested_base parse env va_base)) [
    | inl (requested, r) ↦ (
      requested,
      r,
      subst (EndsIn (λ _. IsMade w requested) IsIdle)
          (sym (make_arena-first p idle.no_instance r) ∙ e)
          ((construct-Ensures w requested).ends p idle),
    )
    | inr (x, r) ↦ absurd (err≢ok (ap (λ o. o.0) (sym (make_arena-err p idle.no_instance r) ∙ e)))
  ]

-- The processes that are reached from a fresh one, by constructions and closes in any order, whatever
-- the environment says and whatever the system and the driver answer.
pub data Reach (parse : String → Option ℕ) : HostProcess → Type 0 where
  start : Reach parse fresh_process
  constructs :
      {p : HostProcess} (env : Environ) (va_base : Option ℕ) (w : Answers)
      → Reach parse p
      → Reach parse (make_arena parse env va_base w p).1
  closes : {p : HostProcess} (ref : ℕ) → Reach parse p → Reach parse (close ref p)

reached-IsSound : (parse : String → Option ℕ) {p : HostProcess} → Reach parse p → IsSound p
reached-IsSound parse start =
    inl (record { no_instance = refl; all_closed = λ i b found. absurd cc })
reached-IsSound parse (constructs {p} env va_base w r) =
    make_arena-IsSound parse env va_base w p (reached-IsSound parse r)
reached-IsSound parse (closes {p} ref r) = close-IsSound ref p (reached-IsSound parse r)

close_all-IsIdle : (p : HostProcess) → IsSound p → IsIdle (close_all p.at_exit p)
close_all-IsIdle p (inl idle) = rw (close_all-idle p.at_exit p idle) idle
close_all-IsIdle p (inr (ref, arena, h)) = close_all-open p.at_exit p ref arena h h.exits

-- At any time a process has at most one arena open. It is the instance, mapped and registered with
-- CUDA at its nonzero base, and all other arenas have been closed; without an instance all of them
-- have. The exit of the process closes every arena.
pub Reach-IsSound :
    (parse : String → Option ℕ) {p : HostProcess}
    → Reach parse p
    → IsSound p × IsIdle (close_all p.at_exit p)
Reach-IsSound parse {p} r = let sound = reached-IsSound parse r in (sound, close_all-IsIdle p sound)

-- Where the constructor returns, in a process that is reached, there was no instance before. The new
-- arena is the instance, mapped and registered at its base, which is not zero and is what the driver
-- takes for the device's address. Its first 1 MiB is zero, and it is canonical exactly if its base is
-- the requested one: without an argument, the one that `predicted_base` gives.
pub make_arena-IsMade :
    (parse : String → Option ℕ) (env : Environ) (va_base : Option ℕ) (w : Answers)
    (p q : HostProcess)
    → Reach parse p
    → make_arena parse env va_base w p ≡ (ok tt, q)
    → (p.instance_ref ≡ none)
      × ((requested : ℕ) × (requested_base parse env va_base ≡ ok requested)
          × (va_base ≡ none → predicted_base parse env ≡ ok requested)
          × IsMade w requested q)
make_arena-IsMade parse env va_base w p q r e = elim (reached-IsSound parse r) [
  | inr (ref, arena, h) ↦ absurd (
      err≢ok (ap (λ o. o.0) (sym (make_arena-refused parse env va_base w p ref h.instance_is) ∙ e)))
  | inl idle ↦
      let (requested, is_requested, made) = idle-IsMade parse env va_base w p q idle e in
      (
        idle.no_instance,
        (requested, is_requested, λ n. predicted parse env va_base n is_requested, made),
      )
]
