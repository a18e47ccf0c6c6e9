-- ===== src/Rt.antt =====
-- python/sched_rt.py: the control plane's order of tasks, its tables and their addresses.
pub mod Memory
pub mod Order
pub mod Plane
pub mod Arena
pub mod Occupancy
