-- ===== src/Shim/Plain.antt =====
-- Arguments that nvcc and clang share, and the end of the translated command.
use Prim.Native.String.{String}
use text.Mathlib.Text.{◌==◌ as text_eq}
use sched_pass.Prelude.{
  ◌≡◌, refl, sym, ap, Bool, true, false, ◌||◌, List, [], ◌∷◌, ◌++◌, if◌then◌else◌,
}
use sched_pass.Prelude.Texts.{starts}
use sched_pass.Shim.{Shim, keep, move, args_of, head_of, translate}

-- The options of nvcc that the translation takes apart or drops, by their whole text.
abbrev pub nvcc_words : List String
nvcc_words =
    "-arch" ∷ "-Xcompiler" ∷ "--compiler-options" ∷ "-Xptxas"
    ∷ "--generate-dependencies-with-compile" ∷ "--dependency-output" ∷ "--expt-relaxed-constexpr"
    ∷ "--expt-extended-lambda" ∷ "-static-global-template-stub=false"
    ∷ "-static-global-template-stub=true" ∷ "--use_fast_math" ∷ "-use_fast_math"
    ∷ "-forward-unknown-to-host-compiler" ∷ "--generate-line-info" ∷ "-lineinfo" ∷ "-ccbin" ∷ []

-- and those that are known by how they start
abbrev pub nvcc_prefixes : List String
nvcc_prefixes =
    "-gencode=" ∷ "--compiler-options=" ∷ "-Xfatbin" ∷ "--fatbin-options" ∷ "-Xptxas=" ∷ "--threads"
    ∷ "-static-global-template-stub" ∷ "-ccbin=" ∷ []

-- The test fails for all texts of the list.
abbrev pub AllFail : (String → Bool) → List String → Type 0
AllFail test [] = Unit
AllFail test (s ∷ l) = (test s ≡ false) × AllFail test l

-- An argument that is no option of nvcc's own.
abbrev pub IsShared : String → Type 0
IsShared a = AllFail (text_eq a) nvcc_words × AllFail (starts a) nvcc_prefixes

abbrev pub AllShared : List String → Type 0
AllShared [] = Unit
AllShared (a ∷ args) = IsShared a × AllShared args

-- The loop keeps such an argument, whether or not another one follows.
move-keep :
    (strip_arch : Bool) (a : String) (next : Bool) → IsShared a → move strip_arch a next ≡ keep
unfolding move
move-keep strip_arch a next (words, prefixes) =
    let (
      arch,
      (
        xcompiler,
        (
          options,
          (
            xptxas,
            (
              generate,
              (
                output,
                (
                  constexpr,
                  (
                    lambda_flag,
                    (
                      stub_false,
                      (stub_true, (fast, (fast_short, (forward, (info, (line, (ccbin, _))))))),
                    ),
                  ),
                ),
              ),
            ),
          ),
        ),
      ),
    ) =
      words in
    let (
      gencode,
      (options_of, (fatbin, (fatbin_options, (xptxas_of, (threads, (stub, (ccbin_of, _))))))),
    ) =
      prefixes in
    rw
      (
        move, gencode, arch, options_of, xcompiler, options, fatbin, fatbin_options, xptxas,
        xptxas_of, generate, output, constexpr, lambda_flag, stub_false, stub_true, fast,
        fast_short, forward, info, line, threads, stub, ccbin, ccbin_of,
      )
      refl

-- one of the arguments chooses the language standard
unfoldable pub has_standard : List String → Bool
has_standard [] = false
has_standard (a ∷ args) = starts a "-std=" || has_standard args

or_false : (t : Bool) → (t || false) ≡ t
or_false true = refl
or_false false = refl

args_of-kept :
    (strip_arch : Bool) (args : List String)
    → AllShared args
    → args_of strip_arch args ≡ (args, has_standard args)
unfolding args_of has_standard
args_of-kept strip_arch [] h = refl
args_of-kept strip_arch (a ∷ []) h =
    rw (args_of, move-keep strip_arch a false h.0)
      (ap (λ t. (a ∷ [], t)) (sym (or_false (starts a "-std="))))
args_of-kept strip_arch (a ∷ b ∷ rest) h =
    rw (args_of, move-keep strip_arch a true h.0, args_of-kept strip_arch (b ∷ rest) h.1) refl

-- Arguments of which none is one of nvcc's own options, by the two lists of these, pass through the
-- translation all and in their order, behind the head of the command. A standard is added exactly if
-- they have none, and the command ends with -fPIC.
pub translate-kept :
    (shim : Shim) (args : List String) (weave : Bool)
    → AllShared args
    → translate shim args weave
      ≡ head_of shim weave
        ++ args
        ++ (if has_standard args then [] else "-std=c++17" ∷ [])
        ++ "-fPIC" ∷ []
unfolding translate
translate-kept shim args weave h = rw (args_of-kept shim.strip_arch args h) refl
