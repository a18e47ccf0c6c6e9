-- ===== src/Tests/PatchTests.antt =====
-- Runs of the header patcher.
use Prim.Native.String.{String}
use sched_pass.Prelude.{ℕ, ◌≡◌, refl, true, false, some, [], ◌∷◌, length, if◌then◌else◌, ◌==◌}
use sched_pass.Dict.{lookup}
use sched_pass.Env.{texts}
use sched_pass.Patch.{Files, Tally, patches, replace, replace_from, patch_main}
use sched_pass.Patch.Report.{unfound, patch_main-check}
use sched_pass.Patch.Kept.{total, is_there, is_patched, patch_main-KeepsFiles}

abbrev headers : Files
headers =
    ("include/flashinfer/attention/prefill.cuh", "x.load_128b_async<4>(); y>::cast<2>();")
    ∷ ("README", "text")
    ∷ []

replaced :
    replace "a>::cast<b>::cast<c" ">::cast<" ">::template cast<"
    ≡ "a>::template cast<b>::template cast<c"
unfolding replace replace_from
replaced = refl

patch_main-check_example :
    (t : Tally) × (patch_main true (some headers)
      ≡ ((if unfound headers patches == 0 then 0 else 1), some (headers, t)))
patch_main-check_example = patch_main-check headers

patch_main-KeepsFiles_example :
    (n : ℕ) × (files' : Files) × (t : Tally) × (patch_main false (some headers)
      ≡ (n, some (files', t)))
    × (total t ≡ length patches)
    × ((path : String) → is_there files' path ≡ is_there headers path)
    × ((path : String)
        → is_patched patches path ≡ false
        → lookup texts files' path ≡ lookup texts headers path)
patch_main-KeepsFiles_example = patch_main-KeepsFiles false headers
