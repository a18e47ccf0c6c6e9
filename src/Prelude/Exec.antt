-- ===== src/Prelude/Exec.antt =====
-- Methods that change an object and may raise: the object comes back beside the result, also after
-- a raise, since what was written stays written.
pub mod Keeps
pub mod Ensures
use sched_pass.Prelude.Result.{Result, ok, err}

abbrev pub Exec : Type 0 → Type 0 → Type 0
Exec S A = S → Result A × S

module _ {S : Type 0} where
  -- `pass`
  pub done : Exec S (Unit {0})
  done s = (ok tt, s)

  -- the object itself
  pub state : Exec S S
  state s = (ok s, s)

  -- assignments to its fields
  pub modify : (S → S) → Exec S (Unit {0})
  modify g s = (ok tt, g s)

  -- a computation that reads it only before
  pub lift : {A : Type 0} → Result A → Exec S A
  lift r s = (r, s)

  module _ {A B : Type 0} where
    -- What follows a call runs on what it left, unless it raised.
    abbrev resume : (A → Exec S B) → Result A × S → Result B × S
    resume rest (err e, s) = (err e, s)
    resume rest (ok a, s) = rest a s

    infixl 5 ◌>>=◌ ◌>>◌
    unfoldable pub ◌>>=◌ : Exec S A → (A → Exec S B) → Exec S B
    unfolding done state modify lift
    ◌>>=◌ m rest s = resume rest (m s)

    abbrev pub ◌>>◌ : Exec S A → Exec S B → Exec S B
    ◌>>◌ m rest = m >>= λ _. rest
