-- ===== src/Resource.antt =====
-- Package resource (pkg/resource): identities, their texts, the order of resources and the graph.
pub mod Object
pub mod Less
pub mod Depends
pub mod Graph
pub mod Build
pub mod Errors
pub mod Text
pub mod Scope
