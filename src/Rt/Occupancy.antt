-- ===== src/Rt/Occupancy.antt =====
-- python/sched_rt.py, `SchedPlane.r_for_cached_so`: how many tiles of a cached kernel are resident.
-- The tools and the driver that it calls are parameters; of the driver the loaded modules are kept.
pub mod Exact
use Prim.Native.String.{String, ◌++◌ as cat}
use sched_pass.Prelude.{
  ℕ, zero, suc, ◌*◌, Bool, true, false, not, ◌&&◌, ◌==◌, ltb, Option, none, some, List, [], ◌∷◌,
  if◌then◌else◌,
}
use sched_pass.Prelude.Int.{ℤ, sub_ℕ}
use sched_pass.Prelude.Result.{Result, ok, err, runtime_error}
use sched_pass.Prelude.Exec.{Exec, ◌>>=◌, ◌>>◌, done, state, modify, lift}
use sched_pass.Prelude.Texts.{
  after_prefix, has_part, run_of, is_digit, is_empty, value_from, split, is_space,
}

-- One extracted cubin: whether its file can be read, the codes of the driver's calls on it, the
-- module that the load hands out, and the blocks per SM that the query counts.
pub record Cubin : Type 0 where
  pub readable : Bool
  pub load_code : ℕ
  pub handle : ℕ
  pub function_code : String → ℕ
  pub query_code : ℕ
  pub blocks : ℕ

-- What the call finds: the lines of `nm`, or that it raises; the cubins in the order of their names,
-- or that the extraction raises; `str` of an integer; and what `self.sm_count()` returns or raises.
pub record Tools : Type 0 where
  pub nm : Result (List String)
  pub cubins : Result (List Cubin)
  pub str : ℤ → String
  pub sm_count : Result ℕ

abbrev Driver : Type 0 → Type 0
Driver A = Exec (List ℕ) A

-- the last of `l.split()`, of a line that is not blank
unfoldable pub last_word : String → String → List String → String
unfolding is_empty
last_word best first [] = if is_empty first then best else first
last_word best first (second ∷ others) =
    last_word (if is_empty first then best else first) second others

unfoldable pub symbol_of : String → String
unfolding split is_space
symbol_of line = let (first, others) = split is_space line in last_word "" first others

-- the stubs among the lines
unfoldable pub stubs_of : String → List String → List String
unfolding has_part
stubs_of part [] = []
stubs_of part (line ∷ lines) =
    let rest = stubs_of part lines in
    if has_part line "__device_stub__" && has_part line part then symbol_of line ∷ rest else rest

-- The leftmost `(\d+)__device_stub__`: what stands before it, its number, and what follows.
unfoldable pub find_infix : String → Option (String × ℕ × String)
unfolding run_of is_digit is_empty after_prefix value_from
find_infix String.[] = none
find_infix (String.◌∷◌ c s) =
    let later : Option (String × ℕ × String) = elim (find_infix s) [
      | none ↦ none
      | some (before, n, tail) ↦ some (String.◌∷◌ c before, n, tail)
    ] in
    let (digits, rest) = run_of is_digit (String.◌∷◌ c s) in
    if is_empty digits then later else elim (after_prefix "__device_stub__" rest) [
      | none ↦ later
      | some tail ↦ some ("", value_from 0 digits, tail)
    ]

-- `devname`
unfoldable pub device_name : (ℤ → String) → String → String
unfolding find_infix
device_name str stub = elim (find_infix stub) [
  | none ↦ stub
  | some (before, n, tail) ↦ cat before (cat (str (sub_ℕ n 15)) tail)
]

-- the loaded modules without one of this handle
unfoldable pub unloaded : ℕ → List ℕ → List ℕ
unloaded handle [] = []
unloaded handle (m ∷ l) = let rest = unloaded handle l in if handle == m then l else m ∷ rest

-- the calls on a module that is loaded: the blocks, or 0, with the module unloaded again
unfoldable pub query : Cubin → String → Driver ℕ
query c name =
    if not (c.function_code name == 0)
    then modify (unloaded c.handle) >> lift (ok 0)
    else modify (unloaded c.handle)
      >> (if c.query_code == 0 then lift (ok c.blocks) else lift (ok 0))

-- one turn of the loop
unfoldable pub occupancy : Cubin → String → Driver ℕ
occupancy c name =
    if not c.readable
    then lift (err runtime_error)
    else if not (c.load_code == 0)
    then lift (ok 0)
    else modify (◌∷◌ c.handle) >> query c name

-- `blocks.value * self.sm_count()`
unfoldable pub scaled : Result ℕ → ℕ → Driver ℕ
scaled sm_count blocks = lift sm_count >>= λ n. lift (ok (blocks * n))

unfoldable pub first_resident : List Cubin → String → Result ℕ → Driver ℕ
first_resident [] name sm_count = lift (ok 0)
first_resident (c ∷ cubins) name sm_count =
    let rest = first_resident cubins name sm_count in
    occupancy c name >>= λ blocks. if ltb 0 blocks then scaled sm_count blocks else rest

-- the body of the `try`, after the stubs and as a whole
unfoldable pub of_cubins : Tools → String → Driver ℕ
of_cubins t stub =
    lift t.cubins >>= λ cubins. first_resident cubins (device_name t.str stub) t.sm_count

unfoldable pub of_stubs : Tools → List String → Driver ℕ
of_stubs t [] = lift (ok 0)
of_stubs t (stub ∷ stubs) = of_cubins t stub

unfoldable pub residents : Tools → String → Driver ℕ
residents t part = lift t.nm >>= λ lines. of_stubs t (stubs_of part lines)

-- `except Exception`
abbrev pub or_zero : Result ℕ × List ℕ → ℕ × List ℕ
or_zero (ok r, l) = (r, l)
or_zero (err _, l) = (0, l)

unfoldable pub r_for_cached_so : Tools → String → List ℕ → ℕ × List ℕ
r_for_cached_so t part loaded = or_zero (residents t part loaded)
