-- ===== src/Prelude/Texts/Parts.antt =====
-- What the tests of `startswith` and `in` say of a text: how it is put together.
use Prim.Native.Char.{Char, code}
use Prim.Native.String.{String}
use mathlib.Core.Bool.{true, false, ◌&&◌}
use mathlib.Core.Path.{◌≡◌, refl, sym, ◌∙◌, ap, ap₂}
use text.Mathlib.TextEquality.{Char-path}
use sched_pass.Prelude.{Bool-cases, inl, inr, arith, ◌==◌}
use sched_pass.Prelude.Texts.{after_prefix, starts, has_part}

-- one text behind the other
unfoldable pub joined : String → String → String
joined String.[] t = t
joined (String.◌∷◌ c s) t = String.◌∷◌ c (joined s t)

-- A text has a part if it is something, the part and something behind it.
abbrev pub HasPart : String → String → Type 0
HasPart s part = (front : String) × (rest : String) × (s ≡ joined front (joined part rest))

starts_cons :
    (c d : Char) (prefix s : String)
    → starts (String.◌∷◌ d s) (String.◌∷◌ c prefix) ≡ ((code c == code d) && starts s prefix)
unfolding starts after_prefix
starts_cons c d prefix s = elim (Bool-cases (code c == code d)) [
  | inl e ↦ rw (starts, after_prefix, e) refl
  | inr e ↦ rw (starts, after_prefix, e) refl
]

starts_nil : (s : String) → starts s "" ≡ true
unfolding starts after_prefix
starts_nil s = refl

nil_starts : (c : Char) (prefix : String) → starts "" (String.◌∷◌ c prefix) ≡ false
unfolding starts after_prefix
nil_starts c prefix = refl

starts-joined : (prefix rest : String) → starts (joined prefix rest) prefix ≡ true
unfolding joined
starts-joined String.[] rest = starts_nil rest
starts-joined (String.◌∷◌ c prefix) rest =
    let same : (code c == code c) ≡ true = ground arith in
    starts_cons c c prefix (joined prefix rest) ∙ ap₂ ◌&&◌ same (starts-joined prefix rest)

starts-rest :
    (s prefix : String) → starts s prefix ≡ true → (rest : String) × (s ≡ joined prefix rest)
unfolding joined
starts-rest s String.[] h = (s, refl)
starts-rest String.[] (String.◌∷◌ c prefix) h = absurd (let e = nil_starts c prefix in ground arith)
starts-rest (String.◌∷◌ d s) (String.◌∷◌ c prefix) h =
    let e = starts_cons c d prefix s in
    let same : code c ≡ code d = ground arith in
    let later : starts s prefix ≡ true = ground arith in
    let (rest, e') = starts-rest s prefix later in
    (rest, ap₂ String.◌∷◌ (sym (Char-path c d same)) e')

pub has_part-HasPart : (s part : String) → has_part s part ≡ true → HasPart s part
unfolding has_part joined
has_part-HasPart String.[] part h = let (rest, e) = starts-rest String.[] part h in ("", rest, e)
has_part-HasPart (String.◌∷◌ c s) part h = elim (Bool-cases (starts (String.◌∷◌ c s) part)) [
  | inl e ↦ let (rest, e') = starts-rest (String.◌∷◌ c s) part e in ("", rest, e')
  | inr e ↦
      let later : has_part s part ≡ true = ground arith in
      let (front, rest, e') = has_part-HasPart s part later in
      (String.◌∷◌ c front, rest, ap (String.◌∷◌ c) e')
]

starts-has_part : (s part : String) → starts s part ≡ true → has_part s part ≡ true
unfolding has_part
starts-has_part String.[] part h = h
starts-has_part (String.◌∷◌ c s) part h = rw h refl

has_part-joined :
    (front part rest : String) → has_part (joined front (joined part rest)) part ≡ true
unfolding joined has_part
has_part-joined String.[] part rest =
    starts-has_part (joined part rest) part (starts-joined part rest)
has_part-joined (String.◌∷◌ c front) part rest =
    let later = has_part-joined front part rest in ground arith

pub HasPart-has_part : (s part : String) → HasPart s part → has_part s part ≡ true
HasPart-has_part s part (front, rest, e) = rw e (has_part-joined front part rest)
