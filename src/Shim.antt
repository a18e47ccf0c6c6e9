-- ===== src/Shim.antt =====
-- python/nvcc_clang_shim.py: the translation of nvcc's command line to clang's, and what `main` does
-- with an invocation. Regular expressions are read on the texts themselves.
pub mod Keyed
pub mod Plain
use Prim.Native.String.{String, ◌++◌ as cat}
use text.Mathlib.Text.{◌==◌ as text_eq}
use sched_pass.Prelude.{
  ℕ, ◌==◌, Bool, true, false, not, ◌&&◌, ◌||◌, Option, none, some, List, [], ◌∷◌, ◌++◌,
  if◌then◌else◌,
}
use sched_pass.Prelude.Texts.{
  after_prefix, starts, has_part, run_of, is_digit, is_word, is_empty, all_digits, value_from,
  split, strip, join_words,
}
use sched_pass.Dict.{lookup, lookup_or}
use sched_pass.Env.{Environ, texts, is_set}

-- The constants of the module, with what the file system says of two of the paths.
pub record Shim : Type 0 where
  pub clang : String
  pub plugin : String
  pub cuda_path : String
  pub strip_arch : Bool
  -- `os.path.join(CUDA_PATH, "include")` and PRELUDE, where they exist
  pub include : Option String
  pub prelude : Option String

-- `sm_\d+` at the start: what it takes, and what follows
unfoldable pub sm_number : String → Option (String × String)
unfolding after_prefix run_of is_digit is_empty
sm_number s = elim (after_prefix "sm_" s) [
  | none ↦ none
  | some rest ↦
      let (digits, tail) = run_of is_digit rest in
      if is_empty digits then none else some (cat "sm_" digits, tail)
]

-- `f$`, which also stands before a last newline
abbrev is_family : String → Bool
is_family tail = text_eq tail "f" || text_eq tail "f\n"

unfoldable pub clang_arch : Bool → String → String
unfolding sm_number
clang_arch strip_arch nvcc_code = elim (sm_number nvcc_code) [
  | none ↦ nvcc_code
  | some (sm, tail) ↦ if strip_arch then sm else if is_family tail then cat sm "a" else nvcc_code
]

-- `re.search(r",code=([A-Za-z0-9_]+)", a)`
unfoldable pub code_of : String → Option String
unfolding after_prefix run_of is_word is_empty
code_of String.[] = none
code_of (String.◌∷◌ c s) =
    let later = code_of s in
    elim (after_prefix ",code=" (String.◌∷◌ c s)) [
      | none ↦ later
      | some rest ↦
          let (word, tail) = run_of is_word rest in if is_empty word then later else some word
    ]

-- `re.search(r"cuda-(\d+)\.(\d+)", path)`
unfoldable pub cuda_release : String → Option (String × String)
unfolding after_prefix run_of is_digit is_empty
cuda_release String.[] = none
cuda_release (String.◌∷◌ c s) =
    let later = cuda_release s in
    elim (after_prefix "cuda-" (String.◌∷◌ c s)) [
      | none ↦ later
      | some rest ↦
          let (major, tail) = run_of is_digit rest in
          elim (after_prefix "." tail) [
            | none ↦ later
            | some rest' ↦
                let (minor, tail') = run_of is_digit rest' in
                if is_empty major || is_empty minor then later else some (major, minor)
          ]
    ]

-- `a.split("=", 1)[1]`, of a text with an "="
unfoldable pub after_equals : String → String
unfolding after_prefix
after_equals String.[] = ""
after_equals (String.◌∷◌ c s) =
    let later = after_equals s in
    elim (after_prefix "=" (String.◌∷◌ c s)) [ none ↦ later | some rest ↦ rest ]

-- What one turn of the loop does with an argument: it emits texts for it; it takes the next one too
-- and emits texts before it, or the architecture of it, or nothing; or it keeps the argument.
pub data Move : Type 0 where
  emit : List String → Move
  before_next : List String → Move
  next_arch : Move
  drop_next : Move
  keep : Move

-- one of the flags that clang does not understand
abbrev is_nvcc_only : String → Bool
is_nvcc_only a =
    text_eq a "--expt-relaxed-constexpr"
    || (text_eq a "--expt-extended-lambda"
        || (text_eq a "-static-global-template-stub=false"
            || (text_eq a "-static-global-template-stub=true"
                || (text_eq a "--use_fast_math"
                    || (text_eq a "-use_fast_math"
                        || (text_eq a "-forward-unknown-to-host-compiler"
                            || (text_eq a "--generate-line-info" || text_eq a "-lineinfo")))))))

-- The tests of the loop, in its order; `has_next` is `i + 1 < len(argv)`.
unfoldable pub move : Bool → String → Bool → Move
unfolding starts clang_arch code_of after_equals
move strip_arch a has_next =
    if starts a "-gencode="
    then elim (code_of a) [
      | none ↦ emit []
      | some code ↦ emit (cat "--cuda-gpu-arch=" (clang_arch strip_arch code) ∷ [])
    ]
    else if text_eq a "-arch" && has_next
    then next_arch
    else if starts a "--compiler-options="
    then emit (after_equals a ∷ [])
    else if (text_eq a "-Xcompiler" || text_eq a "--compiler-options") && has_next
    then before_next []
    else if starts a "-Xfatbin" || starts a "--fatbin-options"
    then (if (text_eq a "-Xfatbin" || text_eq a "--fatbin-options") && has_next
        then drop_next
        else emit [])
    else if text_eq a "-Xptxas" && has_next
    then before_next ("-Xcuda-ptxas" ∷ [])
    else if starts a "-Xptxas="
    then emit ("-Xcuda-ptxas" ∷ after_equals a ∷ [])
    else if text_eq a "--generate-dependencies-with-compile"
    then emit []
    else if text_eq a "--dependency-output" && has_next
    then before_next ("-MMD" ∷ "-MF" ∷ [])
    else if is_nvcc_only a
    then emit []
    else if starts a "--threads" || starts a "-static-global-template-stub"
    then (if text_eq a "--threads" && has_next then drop_next else emit [])
    else if text_eq a "-ccbin" && has_next
    then drop_next
    else if starts a "-ccbin="
    then emit []
    else keep

-- the loop: what it emits, and `have_std`
unfoldable pub args_of : Bool → List String → List String × Bool
args_of strip_arch [] = ([], false)
args_of strip_arch (a ∷ []) = elim (move strip_arch a false) [
  | emit out ↦ (out, false)
  | keep ↦ (a ∷ [], starts a "-std=")
  | before_next out ↦ (out, false)
  | next_arch ↦ ([], false)
  | drop_next ↦ ([], false)
]
args_of strip_arch (a ∷ b ∷ rest) =
    let one = args_of strip_arch (b ∷ rest) in
    let two = args_of strip_arch rest in
    elim (move strip_arch a true) [
      | emit out ↦ (out ++ one.0, one.1)
      | keep ↦ (a ∷ one.0, starts a "-std=" || one.1)
      | before_next out ↦ (out ++ b ∷ two.0, two.1)
      | next_arch ↦ (cat "--cuda-gpu-arch=" (clang_arch strip_arch b) ∷ two.0, two.1)
      | drop_next ↦ two
    ]

-- `out` before the loop
unfoldable pub head_of : Shim → Bool → List String
unfolding cuda_release is_empty
head_of shim weave =
    let release : String × String = elim (cuda_release shim.cuda_path) [
      | none ↦ ("12", "0")
      | some r ↦ r
    ] in
    (shim.clang
      ∷ "-x"
      ∷ "cuda"
      ∷ cat "--cuda-path=" shim.cuda_path
      ∷ "-Wno-unknown-cuda-version"
      ∷ [])
    ++ elim shim.include [ none ↦ [] | some path ↦ "-isystem" ∷ path ∷ [] ]
    ++ elim shim.prelude [ none ↦ [] | some path ↦ "-include" ∷ path ∷ [] ]
    ++ (cat "-D__CUDACC_VER_MAJOR__=" release.0
        ∷ cat "-D__CUDACC_VER_MINOR__=" release.1
        ∷ "-D__CUDACC_VER_BUILD__=0"
        ∷ [])
    ++ (if not (is_empty shim.plugin) && weave then cat "-fpass-plugin=" shim.plugin ∷ [] else [])

unfoldable pub translate : Shim → List String → Bool → List String
translate shim argv weave =
    let (args, have_std) = args_of shim.strip_arch argv in
    head_of shim weave ++ args ++ (if have_std then [] else "-std=c++17" ∷ []) ++ "-fPIC" ∷ []

-- `x in l`
unfoldable pub is_in : String → List String → Bool
is_in x [] = false
is_in x (y ∷ l) = text_eq y x || is_in x l

-- the release that the version banner names
unfoldable pub banner_release : String → String
unfolding cuda_release
banner_release cuda_path = elim (cuda_release cuda_path) [
  | none ↦ "12.9"
  | some (major, minor) ↦ cat major (cat "." minor)
]

-- the environment without the keys that start with SCHED_BAKE_
unfoldable pub without_bake : Environ → Environ
unfolding starts
without_bake [] = []
without_bake ((key, value) ∷ env) =
    let rest = without_bake env in if starts key "SCHED_BAKE_" then rest else (key, value) ∷ rest

abbrev pub order_addr : Environ → String
order_addr env = lookup_or texts env "SCHED_BAKE_TASK_ORDER" ""

-- whether the workspace carries the tag of the baked address; `hex` is `f"{n:x}"`.
abbrev pub is_keyed : (ℕ → String) → Environ → Bool
is_keyed hex env =
    has_part (lookup_or texts env "FLASHINFER_WORKSPACE_BASE" "")
      (cat "va" (hex (value_from 0 (order_addr env))))

-- what the guard of `main` makes of the environment
unfoldable pub guarded : (ℕ → String) → Environ → Environ
unfolding without_bake all_digits has_part value_from
guarded hex env =
    if all_digits (order_addr env) && not (is_keyed hex env) then without_bake env else env

-- `any(s.strip() and s.strip() in hay for s in only.split(","))`
unfoldable pub any_part : String → List String → Bool
unfolding strip has_part is_empty
any_part hay [] = false
any_part hay (s ∷ parts) = not (is_empty (strip s)) && has_part hay (strip s) || any_part hay parts

-- whether the compile is to be woven
unfoldable pub is_woven : Environ → List String → Bool
unfolding any_part split join_words is_empty
is_woven env argv =
    let only = lookup_or texts env "SCHED_WEAVE_ONLY" "" in
    let (first, others) = split (λ c. c == b',') only in
    is_empty only || any_part (join_words argv) (first ∷ others)

-- the arguments of a routed compile
unfoldable pub routed_args : List String → List String
routed_args [] = []
routed_args (a ∷ []) = a ∷ []
routed_args (a ∷ b ∷ rest) =
    let one = routed_args (b ∷ rest) in
    let two = routed_args rest in
    if text_eq a "-isystem" && text_eq b "/usr/local/cuda/include" then two else a ∷ one

-- What `main` ends in: the version banner, the real nvcc in place of the process, or a call of clang,
-- with the environment that the program runs in.
pub data Outcome : Type 0 where
  banner : String → Outcome
  exec : String → List String → Environ → Outcome
  call : List String → Environ → Outcome

-- `exists` is `os.path.exists`.
unfoldable pub main : Shim → (ℕ → String) → (String → Bool) → Environ → List String → Outcome
main shim hex exists env argv =
    let env' = guarded hex env in
    let weave = is_woven env' argv in
    let real = lookup_or texts env' "SCHED_REAL_NVCC" "" in
    if is_in "--version" argv
    then banner (banner_release shim.cuda_path)
    else if not weave && (not (is_empty real) && exists real)
    then exec real (routed_args argv) env'
    else call (translate shim argv weave) env'
