-- ===== src/Prelude/Exec/Ensures.antt =====
-- What holds when an action returns, of its value and the object, and what holds when it raises.
use mathlib.Core.Bool.{Bool, true, false}
use mathlib.Core.Path.{◌≡◌, refl}
use sched_pass.Prelude.Tests.{if◌then◌else◌}
use sched_pass.Prelude.Result.{Exception, Result, ok, err}
use sched_pass.Prelude.Exec.{Exec, done, state, modify, lift, ◌>>=◌}

module _ {S A : Type 0} where
  abbrev pub EndsIn : (A → S → Type 0) → (S → Type 0) → Result A × S → Type 0
  EndsIn Q E (ok a, s) = Q a s
  EndsIn Q E (err _, s) = E s

  -- From an object with `P` the action returns with `Q`, or raises with `E`.
  pub record Ensures (P : S → Type 0) (m : Exec S A) (Q : A → S → Type 0) (E : S → Type 0)
      : Type 0 where
    pub ends : (s : S) → P s → EndsIn Q E (m s)

module _ {S A B : Type 0} {R : A → S → Type 0} {Q : B → S → Type 0} {E : S → Type 0} where
  resumed :
      (r : Result A) (rest : A → Exec S B) (s : S)
      → ((a : A) → Ensures (R a) (rest a) Q E)
      → EndsIn R E (r, s)
      → EndsIn Q E ((lift r >>= rest) s)
  unfolding ◌>>=◌
  resumed (ok a) rest s later h = (later a).ends s h
  resumed (err e) rest s later h = h

module _ {S C : Type 0} where
  constant-EndsIn : {A : Type 0} → C → (r : Result A × S) → EndsIn {A = A} (λ _ _. C) (λ _. Unit) r
  constant-EndsIn c (ok a, s) = c
  constant-EndsIn c (err e, s) = tt

  -- What does not depend on the object survives any action that returns.
  pub constant-Ensures : {A : Type 0} {m : Exec S A} → Ensures (λ _. C) m (λ _ _. C) (λ _. Unit)
  constant-Ensures {A} {m} = record { ends = λ s c. constant-EndsIn c (m s) }

pub done-returns : {S : Type 0} (s : S) → done s ≡ (ok tt, s)
unfolding done
done-returns s = refl

module _ {S : Type 0} {P E : S → Type 0} where
  pub modify-Ensures :
      {Q : Unit {0} → S → Type 0} (g : S → S)
      → ((s : S) → P s → Q tt (g s))
      → Ensures P (modify g) Q E
  unfolding modify
  modify-Ensures g after = record { ends = after }

  pub done-Ensures : {Q : Unit {0} → S → Type 0} → ((s : S) → P s → Q tt s) → Ensures P done Q E
  unfolding done
  done-Ensures after = record { ends = after }

  pub state-Ensures : {Q : S → S → Type 0} → ((s : S) → P s → Q s s) → Ensures P state Q E
  unfolding state
  state-Ensures after = record { ends = after }

  module _ {A : Type 0} {Q : A → S → Type 0} where
    pub ok-Ensures : (a : A) → ((s : S) → P s → Q a s) → Ensures P (lift (ok a)) Q E
    unfolding lift
    ok-Ensures a after = record { ends = after }

    pub err-Ensures : (e : Exception) → ((s : S) → P s → E s) → Ensures P (lift (err e)) Q E
    unfolding lift
    err-Ensures e after = record { ends = after }

    pub if-Ensures :
        (b : Bool) {m k : Exec S A}
        → (b ≡ true → Ensures P m Q E)
        → (b ≡ false → Ensures P k Q E)
        → Ensures P (if b then m else k) Q E
    if-Ensures false on_true on_false = on_false refl
    if-Ensures true on_true on_false = on_true refl

  module _ {A B : Type 0} {R : A → S → Type 0} {Q : B → S → Type 0} where
    pub bind-Ensures :
        {m : Exec S A} {rest : A → Exec S B}
        → Ensures P m R E
        → ((a : A) → Ensures (R a) (rest a) Q E)
        → Ensures P (m >>= rest) Q E
    unfolding ◌>>=◌
    bind-Ensures {m} {rest} first later = record {
      ends = λ s h. resumed (m s).0 rest (m s).1 later (first.ends s h);
    }
