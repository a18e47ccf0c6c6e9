-- ===== src/Patch.antt =====
-- python/patch_flashinfer.py: the patches of FlashInfer's headers, and what `main` does with them.
-- The files under the data root are a dict from their relative paths to their texts.
pub mod Report
pub mod Kept
use Prim.Native.String.{String, ◌++◌ as cat}
use sched_pass.Prelude.{
  ℕ, zero, suc, ◌+◌, ◌-◌, Bool, true, false, ◌||◌, not, ◌==◌, Option, none, some, List, [], ◌∷◌,
  if◌then◌else◌,
}
use sched_pass.Prelude.Texts.{starts, has_part, text_size}
use sched_pass.Dict.{lookup, insert}
use sched_pass.Env.{texts}

pub record Patch : Type 0 where
  pub rel : String
  pub old : String
  pub new : String

abbrev pub patches : List Patch
patches =
    record {
      rel = "include/flashinfer/vec_dtypes.cuh";
      old = "vec_cast<tgt_float_t, src_float_t>::cast<vec_size>";
      new = "vec_cast<tgt_float_t, src_float_t>::template cast<vec_size>";
    }
    ∷ record {
      rel = "cccl/libcudacxx/include/cuda/std/string_view";
      old =
          "_CCCL_HOST basic_string_view(::std::basic_string<_CharT, ::std::char_traits<_CharT>, _Alloc>)";
      new =
          "_CCCL_HOST_DEVICE basic_string_view(::std::basic_string<_CharT, ::std::char_traits<_CharT>, _Alloc>)";
    }
    ∷ record {
      rel = "cccl/libcudacxx/include/cuda/std/string_view";
      old = "_CCCL_HOST basic_string_view(::std::basic_string<_CharT, _Traits, _Alloc>)";
      new = "_CCCL_HOST_DEVICE basic_string_view(::std::basic_string<_CharT, _Traits, _Alloc>)";
    }
    ∷ record {
      rel = "cccl/libcudacxx/include/cuda/std/string_view";
      old = "_CCCL_HOST basic_string_view(::std::basic_string_view<_CharT>)";
      new = "_CCCL_HOST_DEVICE basic_string_view(::std::basic_string_view<_CharT>)";
    }
    ∷ record {
      rel = "cccl/libcudacxx/include/cuda/std/string_view";
      old = "_CCCL_HOST basic_string_view(::std::basic_string_view<_CharT, _Traits>)";
      new = "_CCCL_HOST_DEVICE basic_string_view(::std::basic_string_view<_CharT, _Traits>)";
    }
    ∷ record {
      rel = "include/flashinfer/norm/fused_qk_rmsnorm_rope.cuh";
      old = "int const token_idx_in_seq = tokenIdx % seq_len;";
      new = "int const token_idx_in_seq = static_cast<int>(tokenIdx) % seq_len;";
    }
    ∷ record {
      rel = "include/flashinfer/attention/prefill.cuh";
      old = ".load_128b_async<";
      new = ".template load_128b_async<";
    }
    ∷ record {
      rel = "include/flashinfer/attention/prefill.cuh";
      old = ">::cast<";
      new = ">::template cast<";
    }
    ∷ record {
      rel = "include/flashinfer/attention/prefill.cuh";
      old = ".get_permuted_offset<";
      new = ".template get_permuted_offset<";
    }
    ∷ record {
      rel = "include/flashinfer/attention/prefill.cuh";
      old = "__ldca(token_pos_in_items + idx_in_original_seq - prefix_len)";
      new = "(*(token_pos_in_items + idx_in_original_seq - prefix_len))";
    }
    ∷ []

abbrev pub Files : Type 0
Files = List (String × String)

pub record Tally : Type 0 where
  pub applied : ℕ
  pub already : ℕ
  pub missing : ℕ
  pub drifted : ℕ

-- `s.replace(old, new)`, of an `old` that is not empty: from the left, where `skip` characters belong
-- to the occurrence that was replaced last.
unfoldable pub replace_from : String → String → ℕ → String → String
unfolding starts text_size
replace_from old new skip String.[] = String.[]
replace_from old new (suc skip) (String.◌∷◌ c s) = replace_from old new skip s
replace_from old new zero (String.◌∷◌ c s) = elim (starts (String.◌∷◌ c s) old) [
  | true ↦ cat new (replace_from old new (text_size old - 1) s)
  | false ↦ String.◌∷◌ c (replace_from old new 0 s)
]

unfoldable pub replace : String → String → String → String
replace s old new = replace_from old new 0 s

-- one turn of the loop of `main`, on a file with this text
unfoldable pub patch_text : Bool → Patch → String → Files → Tally → Files × Tally
patch_text check patch s files t =
    if has_part s patch.old
    then (
      (if check then files else insert texts files patch.rel (replace s patch.old patch.new)),
      record t { applied = suc t.applied },
    )
    else if has_part s patch.new
    then (files, record t { already = suc t.already })
    else (files, record t { drifted = suc t.drifted })

unfoldable pub apply_patch : Bool → Patch → Files → Tally → Files × Tally
apply_patch check patch files t = elim (lookup texts files patch.rel) [
  | none ↦ (files, record t { missing = suc t.missing })
  | some s ↦ patch_text check patch s files t
]

unfoldable pub apply_patches : Bool → List Patch → Files → Tally → Files × Tally
apply_patches check [] files t = (files, t)
apply_patches check (patch ∷ rest) files t =
    let (files', t') = apply_patch check patch files t in apply_patches check rest files' t'

-- the exit code: of `include_root`, where there is no data root, or of `main`
unfoldable pub exit_code : Tally → ℕ
exit_code t = if not (t.missing == 0) || not (t.drifted == 0) then 1 else 0

abbrev pub no_patches : Tally
no_patches = record { applied = 0; already = 0; missing = 0; drifted = 0 }

-- `main`, with these patches: the exit code, with the files and the tally that it prints
unfoldable pub run_patches : Bool → List Patch → Files → ℕ × Files × Tally
run_patches check ps files =
    let (files', t) = apply_patches check ps files no_patches in (exit_code t, files', t)

-- Without a data root `include_root` exits.
unfoldable pub patch_main : Bool → Option Files → ℕ × Option (Files × Tally)
patch_main check none = (2, none)
patch_main check (some files) =
    let (exit, files', t) = run_patches check patches files in (exit, some (files', t))
