-- ===== src/Prelude/Texts.antt =====
-- Python's texts, as far as the code takes them apart: prefixes, searches and runs of characters.
pub mod Parts
use Prim.Native.Char.{code}
use Prim.Native.String.{String, ◌++◌ as cat}
use mathlib.Core.List.{List, [], ◌∷◌}
use sched_pass.Prelude.Tests.{if◌then◌else◌, ◌==◌, leb}
use Prim.Native.Nat.{ℕ, suc, ◌+◌, ◌*◌, ◌-◌}
use mathlib.Core.Bool.{Bool, true, false, ◌&&◌, ◌||◌}
use mathlib.Core.Option.{Option, none, some}

-- what follows a prefix, where the text has it
unfoldable pub after_prefix : String → String → Option String
after_prefix String.[] s = some s
after_prefix (String.◌∷◌ c prefix) String.[] = none
after_prefix (String.◌∷◌ c prefix) (String.◌∷◌ d s) =
    let rest = after_prefix prefix s in if code c == code d then rest else none

-- `s.startswith(prefix)`
unfoldable pub starts : String → String → Bool
unfolding after_prefix
starts s prefix = elim (after_prefix prefix s) [ none ↦ false | some _ ↦ true ]

-- `part in s`
unfoldable pub has_part : String → String → Bool
unfolding starts
has_part String.[] part = starts String.[] part
has_part (String.◌∷◌ c s) part = let rest = has_part s part in starts (String.◌∷◌ c s) part || rest

-- the longest run of such characters at the start, and what follows it
unfoldable pub run_of : (ℕ → Bool) → String → String × String
run_of test String.[] = (String.[], String.[])
run_of test (String.◌∷◌ c s) =
    let (run, rest) = run_of test s in
    if test (code c) then (String.◌∷◌ c run, rest) else (String.[], String.◌∷◌ c s)

-- `\d` on ASCII
unfoldable pub is_digit : ℕ → Bool
is_digit c = leb b'0' c && leb c b'9'

-- `[A-Za-z0-9_]`
unfoldable pub is_word : ℕ → Bool
unfolding is_digit
is_word c = is_digit c || (leb b'a' c && leb c b'z' || (leb b'A' c && leb c b'Z' || c == b'_'))

unfoldable pub is_empty : String → Bool
is_empty String.[] = true
is_empty (String.◌∷◌ c s) = false

-- `len(s)`
unfoldable pub text_size : String → ℕ
text_size String.[] = 0
text_size (String.◌∷◌ c s) = suc (text_size s)

-- `s.isdigit()` on ASCII
unfoldable pub all_digits : String → Bool
unfolding is_digit run_of is_empty
all_digits s =
    let (run, rest) = run_of is_digit s in is_empty rest && (if is_empty run then false else true)

-- `int(s)` of a text of digits
unfoldable pub value_from : ℕ → String → ℕ
value_from n String.[] = n
value_from n (String.◌∷◌ c s) = value_from (10 * n + (code c - b'0')) s

-- The pieces between the characters that the test accepts: `s.split(sep)`, for a separator of one
-- character.
unfoldable pub split : (ℕ → Bool) → String → String × List String
split test String.[] = (String.[], [])
split test (String.◌∷◌ c s) =
    let (first, others) = split test s in
    if test (code c) then (String.[], first ∷ others) else (String.◌∷◌ c first, others)

-- ASCII's white space
unfoldable pub is_space : ℕ → Bool
is_space c = c == 32 || (leb 9 c && leb c 13 || leb 28 c && leb c 31)

-- `s.strip()`
unfoldable pub strip_right : String → String
unfolding is_space is_empty
strip_right String.[] = String.[]
strip_right (String.◌∷◌ c s) =
    let rest = strip_right s in
    if is_empty rest && is_space (code c) then String.[] else String.◌∷◌ c rest

unfoldable pub strip : String → String
unfolding strip_right run_of is_space
strip s = let (spaces, rest) = run_of is_space s in strip_right rest

-- `" ".join(l)`
unfoldable pub join_words : List String → String
join_words [] = String.[]
join_words (s ∷ []) = s
join_words (s ∷ l) = cat s (cat " " (join_words l))
