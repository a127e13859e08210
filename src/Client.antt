-- ===== src/Client.antt =====
-- Package client (pkg/client): the queue of tasks, the applier and the cache of remote objects.
pub mod QueueBuilder
pub mod Passes
pub mod Applier
pub mod Cache
pub mod Builder
pub mod Factory
