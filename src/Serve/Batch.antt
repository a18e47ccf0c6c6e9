-- ===== src/Serve/Batch.antt =====
-- python/sched_sglang_plugin.py, what the hooks read of SGLang's batch and scheduler: the slots, the
-- KV lengths and the mode of a batch, and the wrapper whose plan binds tiles to requests. Attributes
-- differ between versions of SGLang, so each is looked for under several names.

use Prim.Native.String.{String}
use text.Mathlib.Text.{◌==◌ as text_eq}
use sched_pass.Prelude.{
  ℕ, Bool, true, false, ◌||◌, Option, none, some, List, [], ◌∷◌, map, take, if◌then◌else◌,
}
use sched_pass.Prelude.Int.{ℤ, pos}
use sched_pass.Prelude.Result.{Result, ok, err, runtime_error, ◌>>=◌}
use sched_pass.Plugin.{plan_request_indices}

-- The objects of SGLang, as far as the hooks look into them: None, an object with attributes, a
-- list or tuple of objects, a vector of integers and a buffer of bytes.
mutual
  pub data Value : Type 0 where
    none_value : Value
    object : Attrs → Value
    items : Values → Value
    ints : List ℤ → Value
    buffer : List ℕ → Value

  pub data Attrs : Type 0 where
    no_attrs : Attrs
    attr : String → Value → Attrs → Attrs

  pub data Values : Type 0 where
    nil : Values
    cons : Value → Values → Values

pub find_attr : Attrs → String → Value
find_attr no_attrs name = none_value
find_attr (attr other value attrs) name =
    let rest = find_attr attrs name in if text_eq other name then value else rest

-- `getattr(o, name, None)`
unfoldable pub get_attr : Value → String → Value
unfolding find_attr
get_attr (object attrs) name = find_attr attrs name
get_attr _ name = none_value

unfoldable pub is_none : Value → Bool
is_none none_value = true
is_none _ = false

-- one path of `_model_runner`'s loop
unfoldable pub follow : List String → Value → Value
unfolding get_attr is_none
follow [] o = o
follow (name ∷ path) o =
    let next = follow path (get_attr o name) in
    if is_none (get_attr o name) then none_value else next

-- the first of the values that is not None
unfoldable pub first_present : List Value → Value
unfolding is_none
first_present [] = none_value
first_present (v ∷ vs) = let rest = first_present vs in if is_none v then rest else v

unfoldable pub model_runner : Value → Value
unfolding follow first_present
model_runner scheduler = first_present (
    follow ("tp_worker" ∷ "model_runner" ∷ []) scheduler
    ∷ follow ("tp_worker" ∷ "worker" ∷ "model_runner" ∷ []) scheduler
    ∷ [])

-- `w[0] if w else None`, for a list or tuple
unfoldable pub unwrap : Value → Value
unwrap (items nil) = none_value
unwrap (items (cons w ws)) = w
unwrap w = w

unfoldable pub backend_wrapper : Value → List String → List String → Value
unfolding model_runner first_present get_attr unwrap is_none
backend_wrapper scheduler backend_attrs wrapper_names =
    let mr = model_runner scheduler in
    let backend = first_present (map (get_attr mr) backend_attrs) in
    if is_none mr
    then none_value
    else if is_none backend
    then none_value
    else first_present (map (λ name. unwrap (get_attr backend name)) wrapper_names)

unfoldable pub decode_wrapper : Value → Value
unfolding backend_wrapper
decode_wrapper scheduler =
    backend_wrapper scheduler ("attn_backend" ∷ "decode_attn_backend" ∷ [])
      ("decode_wrapper" ∷ "_decode_wrapper" ∷ "decode_wrappers" ∷ [])

unfoldable pub prefill_wrapper : Value → Value
unfolding backend_wrapper
prefill_wrapper scheduler =
    backend_wrapper scheduler ("attn_backend" ∷ "prefill_attn_backend" ∷ "extend_attn_backend" ∷ [])
      ("prefill_wrapper_paged" ∷ "prefill_wrapper" ∷ "_prefill_wrapper" ∷ "prefill_wrappers_paged"
        ∷ "prefill_wrappers" ∷ [])

-- `_plan_info`, as a list of integers
pub read_ints : Value → Result (Option (List ℤ))
read_ints none_value = ok none
read_ints (ints v) = ok (some v)
read_ints _ = err runtime_error

-- `_int_workspace_buffer`, as bytes
pub read_bytes : Value → Result (Option (List ℕ))
read_bytes none_value = ok none
read_bytes (buffer b) = ok (some b)
read_bytes _ = err runtime_error

-- the reading of a wrapper's plan
unfoldable pub wrapper_binding : Value → ℕ → ℕ → ℕ → Option ℕ → Result (Option (List ℤ) × ℤ)
unfolding get_attr read_ints read_bytes plan_request_indices
wrapper_binding w n want_len req_field require_flag = do
  vec ← read_ints (get_attr w "_plan_info")
  buf ← read_bytes (get_attr w "_int_workspace_buffer")
  plan_request_indices vec buf n want_len req_field require_flag

-- `except Exception: return None, n`
unfoldable pub or_unbound : ℕ → Result (Option (List ℤ) × ℤ) → Option (List ℤ) × ℤ
or_unbound n (ok r) = r
or_unbound n (err e) = (none, pos n)

unfoldable pub tile_binding : Value → ℕ → Option (List ℤ) × ℤ
unfolding decode_wrapper is_none wrapper_binding or_unbound
tile_binding scheduler n =
    let w = decode_wrapper scheduler in
    if is_none w then (none, pos n) else or_unbound n (wrapper_binding w n 10 3 (some 9))

unfoldable pub prefill_tile_binding : Value → ℕ → Option (List ℤ) × ℤ
unfolding prefill_wrapper is_none wrapper_binding or_unbound
prefill_tile_binding scheduler n =
    let w = prefill_wrapper scheduler in
    if is_none w then (none, pos n) else or_unbound n (wrapper_binding w n 15 4 none)

-- What `batch.forward_mode` answers; a method that is not there answers False.
pub record ForwardMode : Type 0 where
  pub is_decode : Bool
  pub is_extend : Bool
  pub is_prefill : Bool

pub record Batch : Type 0 where
  pub req_pool_indices_cpu : Option (List ℕ)
  pub req_pool_indices : Option (List ℕ)
  pub seq_lens_cpu : Option (List ℕ)
  pub seq_lens : Option (List ℕ)
  pub forward_mode : Option ForwardMode

-- the first of two attributes that is not None
abbrev pub either {ℓ} : {A : Type ℓ} → Option A → Option A → Option A
either none b = b
either (some a) b = some a

unfoldable pub slot_indices : Batch → Option (List ℕ)
slot_indices batch = either batch.req_pool_indices_cpu batch.req_pool_indices

-- `to_float` is `.float()` of an entry.
unfoldable pub kv_lengths : {A : Type 0} → (ℕ → A) → Batch → ℕ → Bool → Option (List A)
kv_lengths to_float batch n device =
    elim (if device
      then either batch.seq_lens batch.seq_lens_cpu
      else either batch.seq_lens_cpu batch.seq_lens) [
        | none ↦ none
        | some v ↦ some (map to_float (take n v))
      ]

pub data AttnMode : Type 0 where
  decode prefill : AttnMode

-- `weave_prefill` is whether SCHED_WEAVE_PREFILL is "1".
unfoldable pub attn_mode : Bool → Batch → Option AttnMode
attn_mode weave_prefill batch = elim batch.forward_mode [
  | none ↦ none
  | some fm ↦
      if fm.is_decode
      then some decode
      else if weave_prefill
      then (if fm.is_extend || fm.is_prefill then some prefill else none)
      else none
]
