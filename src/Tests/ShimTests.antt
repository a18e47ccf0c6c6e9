-- ===== src/Tests/ShimTests.antt =====
-- Invocations of the compiler shim.
use Prim.Native.String.{String}
use sched_pass.Prelude.{
  arith, Bool, List, inl, inr, Bool-cases, not, ◌&&◌, ℕ, true, false, ◌≡◌, refl, none, [], ◌∷◌,
  ◌++◌, if◌then◌else◌,
}
use sched_pass.Env.{Environ}
use sched_pass.Shim.{Shim, args_of, head_of, translate, move, main}
use sched_pass.Shim.Keyed.{IsKeyed, Compiles, main-IsKeyed}
use text.Mathlib.Text.{◌==◌ as text_eq}
use sched_pass.Prelude.Texts.{starts}
use sched_pass.Shim.Plain.{
  has_standard, AllFail, nvcc_words, nvcc_prefixes, IsShared, AllShared, translate-kept,
}

abbrev clang_19 : Shim
clang_19 = record {
  clang = "clang";
  plugin = "sched.so";
  cuda_path = "/usr/local/cuda-12.9";
  strip_arch = true;
  include = none;
  prelude = none;
}

-- `f"{n:x}"` is not computed here
abbrev one_hex : ℕ → String
one_hex n = "7f00"

abbrev stale : Environ
stale = ("SCHED_BAKE_TASK_ORDER", "4096") ∷ ("FLASHINFER_WORKSPACE_BASE", "/ws/sm90") ∷ []

gencode :
    args_of true ("-gencode=arch=compute_90,code=sm_90a" ∷ "-O3" ∷ [])
    ≡ ("--cuda-gpu-arch=sm_90" ∷ "-O3" ∷ [], false)
unfolding args_of move
gencode = refl

ptxas :
    args_of false ("-Xptxas" ∷ "-v" ∷ "-std=c++20" ∷ "-Xfatbin" ∷ "-compress-all" ∷ [])
    ≡ ("-Xcuda-ptxas" ∷ "-v" ∷ "-std=c++20" ∷ [], true)
unfolding args_of move
ptxas = refl

abbrev shared_args : List String
shared_args = "-c" ∷ "a.cu" ∷ "-std=c++17" ∷ "-O3" ∷ "-I/usr/include" ∷ []

unfoldable all_fail : (String → Bool) → List String → Bool
all_fail test [] = true
all_fail test (s ∷ l) = not (test s) && all_fail test l

all_fail-AllFail :
    (test : String → Bool) (l : List String) → all_fail test l ≡ true → AllFail test l
unfolding all_fail
all_fail-AllFail test [] h = tt
all_fail-AllFail test (s ∷ l) h = elim (Bool-cases (test s)) [
  | inl e ↦ absurd (ground arith)
  | inr e ↦ (e, all_fail-AllFail test l (ground arith))
]

shared :
    (a : String)
    → all_fail (text_eq a) nvcc_words ≡ true
    → all_fail (starts a) nvcc_prefixes ≡ true
    → IsShared a
shared a h k =
    (all_fail-AllFail (text_eq a) nvcc_words h, all_fail-AllFail (starts a) nvcc_prefixes k)

shared_args-AllShared : AllShared shared_args
unfolding starts all_fail
shared_args-AllShared = (
  shared "-c" refl refl,
  (
    shared "a.cu" refl refl,
    (
      shared "-std=c++17" refl refl,
      (shared "-O3" refl refl, (shared "-I/usr/include" refl refl, tt)),
    ),
  ),
)

translate-kept_example :
    translate clang_19 shared_args true
    ≡ head_of clang_19 true
      ++ shared_args
      ++ (if has_standard shared_args then [] else "-std=c++17" ∷ [])
      ++ "-fPIC" ∷ []
translate-kept_example = translate-kept clang_19 shared_args true shared_args-AllShared

main-IsKeyed_example :
    Compiles (IsKeyed one_hex stale) (main clang_19 one_hex (λ _. true) stale ("-c" ∷ "a.cu" ∷ []))
main-IsKeyed_example = main-IsKeyed clang_19 one_hex (λ _. true) stale ("-c" ∷ "a.cu" ∷ [])
