-- ===== src/Inventory.antt =====
-- Package inventory (pkg/inventory): what the run has done to each object, and what is remembered.
pub mod Manager
pub mod Store
