-- ===== src/Serve.antt =====
-- python/sched_sglang_plugin.py, the hooks that SGLang calls before and after each batch.
pub mod Batch
pub mod State
pub mod Plane
pub mod Published
pub mod Probe
pub mod Costs
pub mod Enforce
pub mod Hooks
pub mod Whole
pub mod Valid
pub mod Cadence
pub mod Found
pub mod Unread
