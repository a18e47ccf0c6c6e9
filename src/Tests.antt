-- ===== src/Tests.antt =====
-- Runs on concrete inputs, and each property at an input that meets its hypotheses.
mod Instances
mod OrderTests
mod PlaneTests
mod ControllerTests
mod MoeTests
mod EnvTests
mod LoadgenTests
mod PluginTests
mod ServeTests
mod ShimTests
mod ArenaTests
mod PatchTests
mod SweepTests
mod TraceTests
mod Doubles
