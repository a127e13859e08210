-- ===== src/Runner.antt =====
-- Packages runner and task (pkg/runner), and the state of a run (pkg/client/runner_state.go).
pub mod State
pub mod Patch
pub mod Apply
pub mod Prune
pub mod Wait
pub mod Queue
mod Examples
