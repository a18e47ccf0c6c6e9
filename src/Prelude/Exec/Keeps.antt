-- ===== src/Prelude/Exec/Keeps.antt =====
-- What an action keeps of the object, and the rules to show it, by the way the action is built.
use mathlib.Core.Bool.{Bool, true, false}
use mathlib.Core.Path.{◌≡◌, refl}
use sched_pass.Prelude.Tests.{if◌then◌else◌}
use sched_pass.Prelude.Result.{Result, ok, err}
use sched_pass.Prelude.Exec.{Exec, done, state, modify, lift, ◌>>=◌}

module _ {S : Type 0} (P : S → Type 0) where
  -- Wherever `P` holds before the action, it holds after it, also if the action raises.
  pub record Keeps {A : Type 0} (m : Exec S A) : Type 0 where
    pub kept : (s : S) → P s → P (m s).1

module _ {S : Type 0} {P : S → Type 0} where
  -- an update of the object's fields
  pub modify-Keeps : (g : S → S) → ((s : S) → P s → P (g s)) → Keeps P (modify g)
  unfolding modify
  modify-Keeps g same = record { kept = same }

  pub state-Keeps : Keeps P state
  unfolding state
  state-Keeps = record { kept = λ s before. before }

  pub done-Keeps : Keeps P done
  unfolding done
  done-Keeps = record { kept = λ s before. before }

  module _ {A : Type 0} where
    pub lift-Keeps : (r : Result A) → Keeps P (lift r)
    unfolding lift
    lift-Keeps r = record { kept = λ s before. before }

    -- either branch of a test, which may use how the test came out
    pub branch-Keeps :
        (b : Bool) (yes_part no_part : Exec S A)
        → (b ≡ true → Keeps P yes_part)
        → (b ≡ false → Keeps P no_part)
        → Keeps P (if b then yes_part else no_part)
    branch-Keeps false yes_part no_part kept_yes kept_no = kept_no refl
    branch-Keeps true yes_part no_part kept_yes kept_no = kept_yes refl

  module _ {A B : Type 0} where
    after_result :
        (r : Result A) (rest : A → Exec S B) (s : S)
        → ((a : A) → Keeps P (rest a))
        → P s
        → P ((lift r >>= rest) s).1
    unfolding ◌>>=◌
    after_result (err e) rest s later now = now
    after_result (ok a) rest s later now = (later a).kept s now

    -- a call, and what follows it
    pub bind-Keeps :
        (m : Exec S A) (rest : A → Exec S B)
        → Keeps P m
        → ((a : A) → Keeps P (rest a))
        → Keeps P (m >>= rest)
    unfolding ◌>>=◌
    bind-Keeps m rest first later = record {
      kept = λ s before. after_result (m s).0 rest (m s).1 later (first.kept s before);
    }

    -- What follows a computation may use its value.
    pub bind_lift-Keeps :
        (r : Result A) (rest : A → Exec S B)
        → ((a : A) → r ≡ ok a → Keeps P (rest a))
        → Keeps P (lift r >>= rest)
    unfolding ◌>>=◌
    bind_lift-Keeps (err e) rest later = record { kept = λ s before. before }
    bind_lift-Keeps (ok a) rest later = later a refl

pub ruleset action_rules = (done-Keeps, state-Keeps, lift-Keeps, branch-Keeps, bind-Keeps)
