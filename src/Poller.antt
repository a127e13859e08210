-- ===== src/Poller.antt =====
-- pkg/poller/statuschecker.go: what the state of an object says of its resource.
pub mod Result
pub mod Object
pub mod Kinds
pub mod Workloads
pub mod Check
pub mod Handler
pub mod Multiplexer
pub mod Start
pub mod Informer
pub mod Delivered
mod Examples
