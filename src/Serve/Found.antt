-- ===== src/Serve/Found.antt =====
-- The tile binding of a batch, whatever objects SGLang hands over.
use sched_pass.Prelude.{
  ℕ, ◌≤◌, ◌≡◌, refl, Option, none, some, List, length, inl, inr, Bool-cases, arith,
}
use sched_pass.Prelude.Int.{ℤ, pos, pos_part}
use sched_pass.Prelude.Result.{Result, Result-cases}
use sched_pass.Env.{Environ}
use sched_pass.Plugin.{plan_request_indices}
use sched_pass.Plugin.Plan.{IsBinding, plan_request_indices-IsBinding}
use sched_pass.Serve.Batch.{
  Value, AttnMode, decode, prefill, is_none, attn_mode, decode_wrapper, prefill_wrapper,
  wrapper_binding, or_unbound, tile_binding, prefill_tile_binding, get_attr, read_ints, read_bytes,
}
use sched_pass.Serve.State.{World}
use sched_pass.Serve.Enforce.{mode_binding, binding_of, weaves_prefill}

-- A binding of n requests: none, with one tile for each request, or the request of each tile, with
-- at least as many tiles as requests.
abbrev pub IsBound : ℕ → Option (List ℤ) × ℤ → Type 0
IsBound n (none, ntiles) = ntiles ≡ pos n
IsBound n (some tiles, ntiles) = (ntiles ≡ pos (length tiles)) × (n ≤ length tiles)

or_unbound-IsBound :
    (n : ℕ) (r : Result (Option (List ℤ) × ℤ)) → IsBinding n r → IsBound n (or_unbound n r)
unfolding or_unbound
or_unbound-IsBound n r (inl e) = rw e refl
or_unbound-IsBound n r (inr (tiles, e, h)) = rw e (refl, h)

wrapper_binding-IsBound :
    (w : Value) (n want_len req_field : ℕ) (flag : Option ℕ)
    → ((vec : Option (List ℤ)) (buf : Option (List ℕ))
        → IsBinding n (plan_request_indices vec buf n want_len req_field flag))
    → IsBound n (or_unbound n (wrapper_binding w n want_len req_field flag))
unfolding wrapper_binding or_unbound
wrapper_binding-IsBound w n want_len req_field flag bound =
    elim (Result-cases (read_ints (get_attr w "_plan_info"))) [
      | inr (x, e) ↦ rw e refl
      | inl (vec, e) ↦ elim (Result-cases (read_bytes (get_attr w "_int_workspace_buffer"))) [
        | inr (x, e') ↦ rw (e, e') refl
        | inl (buf, e') ↦ rw (e, e') (or_unbound-IsBound n _ (bound vec buf))
      ]
    ]

tile_binding-IsBound : (scheduler : Value) (n : ℕ) → IsBound n (tile_binding scheduler n)
unfolding tile_binding
tile_binding-IsBound scheduler n = elim (Bool-cases (is_none (decode_wrapper scheduler))) [
  | inl e ↦ rw e refl
  | inr e ↦ rw e (
      wrapper_binding-IsBound (decode_wrapper scheduler) n 10 3 (some 9) (λ vec buf.
        plan_request_indices-IsBinding vec buf n 10 3 (some 9) (omega arith) (omega arith)
          (omega arith)))
]

prefill_tile_binding-IsBound :
    (scheduler : Value) (n : ℕ) → IsBound n (prefill_tile_binding scheduler n)
unfolding prefill_tile_binding
prefill_tile_binding-IsBound scheduler n = elim (Bool-cases (is_none (prefill_wrapper scheduler))) [
  | inl e ↦ rw e refl
  | inr e ↦ rw e (
      wrapper_binding-IsBound (prefill_wrapper scheduler) n 15 4 none (λ vec buf.
        plan_request_indices-IsBinding vec buf n 15 4 none (omega arith) (omega arith) tt))
]

mode_binding-IsBound :
    (mode : Option AttnMode) (scheduler : Value) (n : ℕ) → IsBound n (mode_binding mode scheduler n)
unfolding mode_binding
mode_binding-IsBound none scheduler n = tile_binding-IsBound scheduler n
mode_binding-IsBound (some decode) scheduler n = tile_binding-IsBound scheduler n
mode_binding-IsBound (some prefill) scheduler n = prefill_tile_binding-IsBound scheduler n

IsBound-natural :
    (n : ℕ) (r : Option (List ℤ) × ℤ) → IsBound n r → IsBound n (r.0, pos (pos_part r.1))
IsBound-natural n (none, ntiles) h = rw h refl
IsBound-natural n (some tiles, ntiles) (e, h) = (rw e refl, h)

-- Whatever objects the scheduler is made of, and whatever the plan and its workspace hold, a step
-- finds a binding of its requests in each mode of attention: no map, with one tile for each request,
-- or a map with an entry for each tile, and at least as many tiles as requests.
pub binding_of-IsBound :
    (w : World) (environ : Environ) (n : ℕ)
    → let (map, ntiles) = binding_of w environ n in IsBound n (map, pos ntiles)
unfolding binding_of
binding_of-IsBound w environ n =
    IsBound-natural n _
      (mode_binding-IsBound (attn_mode (weaves_prefill environ) w.batch) w.scheduler n)
