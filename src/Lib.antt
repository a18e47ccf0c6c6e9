-- ===== src/Lib.antt =====
-- The control plane of sched-pass: the Python side that schedules the tiles of a woven GPU kernel.
--
-- A compiler pass weaves an instrument into a kernel: before it serves tile i the kernel reads the
-- task to serve from an order table, and it adds the cycles it took to a timer table. Python owns
-- these tables, in an arena at a fixed address (python/sched_rt.py, `SchedArena`). `SchedPlane`
-- writes them: the order, the ctrl header with its rows through a host mirror that `push`
-- publishes, the timer's reset, a queue ticket. The order comes from predicted costs by
-- `SchedPlane.region_order`, or by `SchedControlPlane` (python/sched_controller.py), which learns a
-- request's cycles from the timer and drives a plane. Apart from these, a hook caps the routed slots
-- per expert of a mixture-of-experts layer (python/sched_moe_hook.py), and a load generator crafts the
-- prompts of a trace (python/sched_trace_loadgen.py). A plugin drives a plane from the scheduler of
-- SGLang (python/sched_sglang_plugin.py). A shim in place of nvcc weaves the kernels with clang
-- (python/nvcc_clang_shim.py), for which the headers of FlashInfer are patched
-- (python/patch_flashinfer.py). The experiments measure how the hardware hands out tiles.
--
-- Files:
--   Prelude, Prelude/*     shared names: Boolean tests and lists over the native numbers, ranges,
--                          permutations, integers, and results with Python's exceptions
--   Sort, Sort/Laws        Python's `sorted` with a key, and that it sorts
--   Torch                  what the code uses of torch, as a record of operations and their laws
--   Rt/Order               python/sched_rt.py, `_grouped_lpt` and `region_order`; Grouped and Split
--                          have the theorems on the two
--   Rt/Memory              `SchedArena.write`, `read`, `memset` and `struct`'s packing, on bytes
--   Rt/Plane               python/sched_rt.py, `SchedPlane`: one function per method, on the state
--                          of Rt/Plane/State. Windows and Methods: which bytes a method writes.
--                          Mirror: what it keeps. Valid: the invariant. Publish: `push` against a
--                          concurrent reader. Table: the order table. Commit: order size, flags, rows
--   Rt/Arena               python/sched_rt.py, `SchedArena`, as actions on its process. Construct:
--                          the constructor; Sound: the instance and `close`; Made: any sequence
--   Rt/Occupancy           python/sched_rt.py, `r_for_cached_so`. Exact: what it returns
--   Floats, Dict           what the code uses of Python's floats, as a record of operations; dicts
--   Env                    python/sched_rt.py, `compute_bake_env` and `arm_process_env`: the
--                          environment of the woven compile. Bake and Arm: what the two leave in it
--   Controller             python/sched_controller.py, `_Fit` and `SchedControlPlane`. Order: what
--                          `order` returns. Damping: a repeated call. Completion and Frozen: its
--                          dead-band under "lpt". Learning: `observe`. Step: `step` on a plane
--   Moe                    python/sched_moe_hook.py, `moe_expert_cap` and `_observe`. Rank: the rank of
--                          a slot within its expert; Groups and Overflow: the prefix sums and the
--                          mask; Cap and Balanced: what is zeroed; Register: `register_moe_cap`
--   Loadgen                python/sched_trace_loadgen.py, `block_tokens` and `craft_input_ids`, which
--                          raise for an empty vocabulary. Total: what they draw where they return;
--                          Blocks: the cache; Craft: the prompt
--   Plugin                 python/sched_sglang_plugin.py, `_plan_request_indices` (Plan) and the fold of
--                          `_consume_probe` (Fold)
--   Tensors                what the serving hooks use of torch's tensors beside Torch
--   Serve                  python/sched_sglang_plugin.py, the hooks of SGLang's scheduler. Batch: what
--                          they find in its objects. State: `_STATE`. Plane: `_plane` and
--                          `pre_arm_env`. Probe: `_consume_probe`, `_resolve_r`, `on_batch_end`. Costs
--                          and Enforce: `on_batch_begin`. Hooks: `register`, and the hooks as they
--                          are called, with Errors and Register. Enforce/Stable and Whole: rules for
--                          what the updates keep; Valid, Unread, Cadence, Found: what
--                          follows; Published: what a planned step publishes
--   Shim                   python/nvcc_clang_shim.py: the translation of the command line and `main`,
--                          with regular expressions read on texts (Prelude/Texts). Keyed: the guard
--                          of baked addresses; Plain: the arguments that are not nvcc's own
--   Patch                  python/patch_flashinfer.py: `PATCHES` and `main`. Report: `--check`; Kept:
--                          the tally, and the files left alone
--   Sweep                  experiments/clc/run_adversarial_sweep.py: the validation of a probe's row and
--                          a suite. Predicted: when a row has no error; Failures: what a suite returns
--   Trace                  experiments/clc/analyze_trace.py, `inversion_stats`. Inversions: what it counts
--   Tests                  concrete parameters, runs, and the theorems at concrete inputs
--
-- The serving hooks are actions on `Serve`, which is `_STATE` with the plane and os.environ: an action
-- returns or raises, and leaves a state in both cases (Prelude/Exec). What a call reads of its
-- surroundings, such as the batch, which CUDA events have fired and where a new arena lands, is its
-- `World`. The calls of the hooks by SGLang are a step relation on `Process`. In the same way the
-- constructor of an arena is an action on `HostProcess`, which keeps the mappings and what CUDA has
-- registered; the answers of the system and the driver are an input of each construction.
--
-- State. A plane holds the arena and the mirror as functions from offsets to bytes, the generation,
-- and the two optional device tensors with their addresses. A method is a function from the plane to
-- a result, which may be an exception, and the plane after it. The mirror has 32 + 8 N bytes, and
-- the packing functions raise `struct.error` outside of it and for numbers that do not fit. The
-- reader of `push` is a byte function that agrees, in each byte, with the memory before or after the
-- write in flight.
--
-- Numbers. Scalars of torch are an abstract type with `below`, and `argsort` is a parameter with two
-- laws: it permutes the indices, and no cost is below a later one. Floats of the ctrl rows are an
-- abstract type with their float32 bits. All loops are structural but one: the
-- padding of a prompt has as many rounds as ids are wanted, which is enough as a block is not empty.
--
-- The controller's floats are abstract too; a theorem names the laws that it needs of them, and
-- within which bounds: nothing is asked of sums that round or overflow, of infinity or of NaN.
-- Tests/Doubles has floats that are exact up to 2 ^ 53 and compare false above it, which meet them.
--
-- Environments are association lists of texts; Python's text formatting, paths and the hash of the
-- plugin file are a record of functions.
--
-- Not modelled: what CUDA and the system's mappings do beyond their answers, the plugin's printed
-- configuration, the HTTP client of the load generator, the shim's log, the site hook
-- (python/sitecustomize.py), the other experiments, the pass itself.
pub mod Prelude
pub mod Sort
pub mod Torch
pub mod Rt
pub mod Floats
pub mod Dict
pub mod Env
pub mod Controller
pub mod Moe
pub mod Loadgen
pub mod Plugin
pub mod Tensors
pub mod Serve
pub mod Shim
pub mod Patch
pub mod Sweep
pub mod Trace
mod Tests
