-- ===== src/Tests/ArenaTests.antt =====
-- A process that makes an arena, and a query of a cached kernel's occupancy.
use Prim.Native.String.{String}
use sched_pass.Prelude.{ℕ, ◌≡◌, refl, true, Option, none, some, [], ◌∷◌}
use sched_pass.Prelude.Result.{ok}
use sched_pass.Prelude.Exec.{◌>>=◌}
use sched_pass.Rt.Arena.{
  HostProcess, Answers, requested_base, predicted_base, make_arena, close_all, fresh_process,
  construct, reserve, reserve_anywhere, mmap, munmap, check, ensure_context, retain_context,
  register_host, publish_arena, default_va_base,
}
use sched_pass.Rt.Arena.Construct.{IsIdle, IsMade}
use sched_pass.Rt.Arena.Sound.{IsSound}
use sched_pass.Rt.Arena.Made.{start, constructs, Reach-IsSound, make_arena-IsMade}
use sched_pass.Rt.Occupancy.{
  Cubin, Tools, stubs_of, device_name, r_for_cached_so, residents, of_stubs, of_cubins,
  first_resident, scaled, occupancy, query, unloaded, symbol_of, last_word,
}
use sched_pass.Rt.Occupancy.Exact.{expected, listed, r_for_cached_so-exact}

-- `int(text, 0)`, of the only text that is asked here
abbrev zero_parse : String → Option ℕ
zero_parse text = some 0

-- all calls succeed, and the mapping lands where it was wanted
abbrev granted : Answers
granted = record {
  fixed = default_va_base;
  anywhere = 0;
  memory = λ i. 7;
  init_code = 0;
  current_code = 0;
  current = 1;
  device_code = 0;
  retain_code = 0;
  set_code = 0;
  register_code = 0;
  pointer_code = 0;
  pointer = default_va_base;
}

-- the address is taken, and the registration fails
abbrev refused : Answers
refused = record granted { fixed = 0; anywhere = 4096; register_code = 2 }

abbrev opened : HostProcess
opened = (make_arena zero_parse [] none granted fresh_process).1

-- A failed registration leaves its mapping behind, and the next construction does not find it.
leftover : (make_arena zero_parse [] none refused fresh_process).1.maps ≡ 4096 ∷ []
unfolding make_arena construct reserve reserve_anywhere mmap munmap check ensure_context
    retain_context register_host requested_base ◌>>=◌
leftover = refl

Reach-IsSound_example : IsSound opened × IsIdle (close_all opened.at_exit opened)
Reach-IsSound_example = Reach-IsSound zero_parse (constructs [] none granted start)

make_arena-IsMade_example :
    (fresh_process.instance_ref ≡ none)
    × ((requested : ℕ) × (requested_base zero_parse [] none ≡ ok requested)
        × (◌≡◌ {A = Option ℕ} none none → predicted_base zero_parse [] ≡ ok requested)
        × IsMade granted requested opened)
unfolding make_arena construct reserve reserve_anywhere mmap munmap check ensure_context
    retain_context register_host requested_base publish_arena ◌>>=◌
make_arena-IsMade_example =
    make_arena-IsMade zero_parse [] none granted fresh_process opened start refl

abbrev kernel : Cubin
kernel = record {
  readable = true;
  load_code = 0;
  handle = 9;
  function_code = λ name. 0;
  query_code = 0;
  blocks = 3;
}

abbrev tools : Tools
tools = record {
  nm = ok ("0001 T _Z18__device_stub__Foov" ∷ []);
  cubins = ok (record kernel { load_code = 209 } ∷ kernel ∷ []);
  str = λ n. "3";
  sm_count = ok 188;
}

shrunk : device_name (λ n. "3") "_Z18__device_stub__Foov" ≡ "_Z3Foov"
unfolding device_name
shrunk = refl

resident : r_for_cached_so tools "Foo" [] ≡ (564, [])
unfolding r_for_cached_so residents of_stubs of_cubins ◌>>=◌ device_name first_resident scaled
    occupancy query unloaded stubs_of symbol_of last_word
resident = refl

r_for_cached_so-exact_example :
    r_for_cached_so tools "Foo" (4 ∷ [])
    ≡ (expected tools (stubs_of "Foo" (listed tools.nm)), 4 ∷ [])
r_for_cached_so-exact_example = r_for_cached_so-exact tools "Foo" (4 ∷ [])
