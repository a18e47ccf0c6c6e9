-- ===== src/Plugin.antt =====
-- python/sched_sglang_plugin.py: `_plan_request_indices`, which reads the request of each tile from
-- FlashInfer's plan, and, of `_consume_probe`, the fold of the measured cycles of the tiles
-- into the requests that they served. Cycles are the 64-bit words of the timer's int64 entries,
-- whose sums wrap around.
pub mod Fold
pub mod Plan
use sched_pass.Prelude.{
  ℕ, zero, suc, ◌+◌, ◌-◌, ◌*◌, ◌%◌, ◌&&◌, ◌||◌, Bool, true, false, min, Option, none, some, List,
  [], ◌∷◌, ◌++◌, map, if◌then◌else◌, ltb, ◌==◌, length, get_elem?, set, take, drop, replicate,
}
use sched_pass.Prelude.Int.{ℤ, pos, negsuc, pos_part, neg_part, ltb_ℤ}
use sched_pass.Prelude.Result.{Result, ok, err, runtime_error, index_error, of_option, ◌>>=◌, ◌>>◌}

abbrev pub word : ℕ
word = 18446744073709551616

-- `.clamp_(0, n - 1)`, for n > 0
unfoldable pub clamp : ℕ → ℤ → ℕ
clamp n (negsuc _) = 0
clamp n (pos i) = min i (n - 1)

-- `.scatter_add_(0, idx, values)`
unfoldable pub scatter_add : List ℕ → List ℕ → List ℕ → Result (List ℕ)
scatter_add acc (i ∷ idx) (c ∷ values) = elim (get_elem? acc i) [
  | none ↦ err runtime_error
  | some a ↦ scatter_add (set acc i ((a + c) % word)) idx values
]
scatter_add acc _ _ = ok acc

-- `m` of the split-safe branch
abbrev pub measured_tiles : ℕ → List ℕ → List ℤ → ℕ
measured_tiles ntiles cycles tile_to_req = min (min ntiles (length cycles)) (length tile_to_req)

-- `per_req`, for n requests. Without a request the clamped indices are -1, which `scatter_add_`
-- refuses.
unfoldable pub fold_cycles : ℕ → ℕ → Option (List ℤ) → List ℕ → Result (List ℕ)
unfolding clamp scatter_add
fold_cycles n ntiles none cycles =
    ok (take (min n (length cycles)) cycles ++ replicate (n - min n (length cycles)) 0)
fold_cycles n ntiles (some tile_to_req) cycles =
    let m = measured_tiles ntiles cycles tile_to_req in
    if n == 0
    then (if m == 0 then ok [] else err runtime_error)
    else scatter_add (replicate n 0) (map (clamp n) (take m tile_to_req)) (take m cycles)

-- An int32 from its four bytes.
abbrev pub int32 : ℕ → ℕ → ℕ → ℕ → ℤ
int32 b0 b1 b2 b3 =
    let w = b0 + 256 * b1 + 65536 * b2 + 16777216 * b3 in
    if ltb w 2147483648 then pos w else negsuc (4294967295 - w)

-- `.view(torch.int32)`: the first count words of the bytes
unfoldable pub words_of : ℕ → List ℕ → List ℤ
words_of zero bytes = []
words_of (suc count) (b0 ∷ b1 ∷ b2 ∷ b3 ∷ bytes) = int32 b0 b1 b2 b3 ∷ words_of count bytes
words_of (suc count) _ = []

-- `v[i]`
unfoldable pub field : List ℤ → ℕ → Result ℤ
field v i = of_option index_error (get_elem? v i)

-- `require_flag is None or bool(v[require_flag])`
unfoldable pub is_bound : List ℤ → Option ℕ → Result Bool
unfolding field
is_bound v none = ok true
is_bound v (some flag) = do
  x ← field v flag
  ok (if pos_part x == 0 && neg_part x == 0 then false else true)

-- the reader below its guard on the length of the plan
unfoldable pub read_plan : List ℤ → List ℕ → ℕ → ℕ → Result (Option (List ℤ) × ℤ)
unfolding field words_of
read_plan v buf n req_field = do
  padded ← field v 0
  req_off ← field v req_field
  let bytes = take (4 * pos_part padded) (drop (pos_part req_off) buf)
  ok (
      if ltb_ℤ padded (pos n)
        || (ltb_ℤ req_off (pos 0) || ltb (length buf) (pos_part req_off + 4 * pos_part padded))
      then (none, pos n)
      else (some (words_of (pos_part padded) bytes), padded))

-- `vec` is the plan as a list and `buf` the bytes of the workspace, where the wrapper has them.
unfoldable pub plan_request_indices :
    Option (List ℤ) → Option (List ℕ) → ℕ → ℕ → ℕ → Option ℕ → Result (Option (List ℤ) × ℤ)
unfolding is_bound read_plan
plan_request_indices none buf n want_len req_field require_flag = ok (none, pos n)
plan_request_indices (some v) none n want_len req_field require_flag = ok (none, pos n)
plan_request_indices (some v) (some buf) n want_len req_field require_flag =
    let reading = read_plan v buf n req_field in
    if length v == want_len
    then (do bound ← is_bound v require_flag; if bound then reading else ok (none, pos n))
    else ok (none, pos n)
