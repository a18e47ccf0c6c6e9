-- ===== src/Rt/Arena.antt =====
-- python/sched_rt.py, `class SchedArena`: one host mapping at a fixed address in each process, which
-- the GPU reads. What the operating system and the CUDA driver answer is an input of each call.
pub mod Construct
pub mod Sound
pub mod Made
use Prim.Native.String.{String}
use sched_pass.Prelude.{
  ℕ, suc, ◌^◌, ◌-◌, Bool, true, false, not, ◌||◌, ◌&&◌, ◌==◌, Option, none, some, List, [], ◌∷◌,
  ◌++◌, if◌then◌else◌, length, get_elem?, set,
}
use sched_pass.Prelude.Result.{Result, ok, err, runtime_error, value_error, of_option}
use sched_pass.Prelude.Exec.{Exec, ◌>>=◌, ◌>>◌, done, state, modify, lift}
use sched_pass.Dict.{lookup_or}
use sched_pass.Env.{Environ, texts}
use sched_pass.Rt.Memory.{Bytes, fill}
use sched_pass.Rt.Plane.{arena_bytes}

-- an object of the class, once its constructor has come that far
pub record Arena : Type 0 where
  pub base : ℕ
  pub canonical : Bool
  pub memory : Bytes

-- What the process keeps: the arenas made so far, of which a number is a reference; `_instance`; the
-- mappings of an arena's size; the ranges that CUDA has registered; and the `close` of which arenas
-- runs at its exit, the last one first.
pub record HostProcess : Type 0 where
  pub arenas : List Arena
  pub instance_ref : Option ℕ
  pub maps : List ℕ
  pub pinned : List ℕ
  pub at_exit : List ℕ

abbrev pub fresh_process : HostProcess
fresh_process = record { arenas = []; instance_ref = none; maps = []; pinned = []; at_exit = [] }

-- The answers to one construction: what `mmap` returns at the address and without one, what the
-- mapping holds, the codes of the driver's calls, and the addresses that they hand out.
pub record Answers : Type 0 where
  pub fixed : ℕ
  pub anywhere : ℕ
  pub memory : Bytes
  pub init_code : ℕ
  pub current_code : ℕ
  pub current : ℕ
  pub device_code : ℕ
  pub retain_code : ℕ
  pub set_code : ℕ
  pub register_code : ℕ
  pub pointer_code : ℕ
  pub pointer : ℕ

abbrev pub OnHost : Type 0 → Type 0
OnHost A = Exec HostProcess A

abbrev pub default_va_base : ℕ
default_va_base = 0x5C0000000000

-- `base in (None, ctypes.c_void_p(-1).value)`
abbrev pub is_failed : ℕ → Bool
is_failed base = base == 0 || base == 2 ^ 64 - 1

-- `x or default`
abbrev or_default : ℕ → ℕ → ℕ
or_default x default = if x == 0 then default else x

-- `parse` is `int(text, 0)`, none where it raises.
unfoldable pub requested_base : (String → Option ℕ) → Environ → Option ℕ → Result ℕ
requested_base parse env va_base = elim (parse (lookup_or texts env "SCHED_VA_BASE" "0")) [
  | none ↦ err value_error
  | some n ↦ ok (or_default n (elim va_base [ none ↦ default_va_base | some base ↦ base ]))
]

unfoldable pub predicted_base : (String → Option ℕ) → Environ → Result ℕ
predicted_base parse env = elim (parse (lookup_or texts env "SCHED_VA_BASE" "0")) [
  | none ↦ err value_error
  | some n ↦ ok (or_default n default_va_base)
]

-- the list without the first entry of this value
unfoldable pub without : ℕ → List ℕ → List ℕ
without x [] = []
without x (y ∷ l) = let rest = without x l in if x == y then l else y ∷ rest

-- `mmap`, of which `base` is the answer
unfoldable pub mmap : ℕ → OnHost ℕ
mmap base =
    modify (λ p. if is_failed base then p else record p { maps = base ∷ p.maps }) >> lift (ok base)

unfoldable pub munmap : ℕ → OnHost (Unit {0})
munmap base = modify (λ p. record p { maps = without base p.maps })

-- the second `mmap`, after the first one failed or landed elsewhere
unfoldable pub reserve_anywhere : Answers → ℕ → OnHost ℕ
reserve_anywhere w base = do
  if is_failed base then done else munmap base
  moved ← mmap w.anywhere
  if is_failed moved then lift (err runtime_error) else lift (ok moved)

-- the mapping: at the requested address, or else anywhere
unfoldable pub reserve : Answers → ℕ → OnHost ℕ
reserve w requested = do
  base ← mmap w.fixed
  if is_failed base || not (base == requested) then reserve_anywhere w base else lift (ok base)

unfoldable pub check : ℕ → OnHost (Unit {0})
check code = if code == 0 then done else lift (err runtime_error)

-- a primary context, where there is no current one
unfoldable pub retain_context : Answers → OnHost (Unit {0})
retain_context w = do check w.device_code; check w.retain_code; check w.set_code

unfoldable pub ensure_context : Answers → OnHost (Unit {0})
ensure_context w = do check w.current_code; if w.current == 0 then retain_context w else done

-- registration with CUDA, and the test of unified addressing
unfoldable pub register_host : Answers → ℕ → OnHost (Unit {0})
register_host w base = do
  check w.register_code
  modify (λ p. record p { pinned = base ∷ p.pinned })
  check w.pointer_code
  if w.pointer == base then done else lift (err runtime_error)

-- the last statements of the constructor: the arena is zeroed, and becomes the instance
unfoldable pub publish_arena : Answers → ℕ → ℕ → HostProcess → HostProcess
publish_arena w requested base p = record p {
  arenas =
      p.arenas
      ++ record {
        base = base;
        canonical = base == requested;
        memory = fill w.memory 0 0 arena_bytes;
      }
        ∷ [];
  instance_ref = some (length p.arenas);
  at_exit = length p.arenas ∷ p.at_exit;
}

abbrev has_ref : Option ℕ → Bool
has_ref none = false
has_ref (some _) = true

-- what the constructor does once it is the only one
unfoldable pub construct : Answers → ℕ → OnHost (Unit {0})
construct w requested = do
  base ← reserve w requested
  check w.init_code
  ensure_context w
  register_host w base
  modify (publish_arena w requested base)

unfoldable pub make_arena : (String → Option ℕ) → Environ → Option ℕ → Answers → OnHost (Unit {0})
make_arena parse env va_base w = do
  p ← state
  if has_ref p.instance_ref then lift (err runtime_error) else done
  requested ← lift (requested_base parse env va_base)
  construct w requested

-- `close` of the arena with this number
unfoldable pub closed : ℕ → Arena → HostProcess → HostProcess
closed ref arena p = record p {
  arenas = set p.arenas ref (record arena { base = 0 });
  instance_ref = none;
  maps = without arena.base p.maps;
  pinned = without arena.base p.pinned;
}

-- `SchedArena._instance is self`
unfoldable pub is_instance : ℕ → HostProcess → Bool
is_instance ref p = elim p.instance_ref [ none ↦ false | some current ↦ current == ref ]

unfoldable pub close : ℕ → HostProcess → HostProcess
close ref p = elim (get_elem? p.arenas ref) [
  | none ↦ p
  | some arena ↦ if not (arena.base == 0) && is_instance ref p then closed ref arena p else p
]

-- the exit of the process
unfoldable pub close_all : List ℕ → HostProcess → HostProcess
close_all [] p = p
close_all (ref ∷ refs) p = close_all refs (close ref p)
