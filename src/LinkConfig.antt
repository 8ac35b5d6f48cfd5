-- ===== src/LinkConfig.antt =====
-- The LinkConfig controller (controllers/linkconfig_controller.go and its API types): it applies
-- the routes of a LinkConfig to the node of each machine.
pub mod Types
pub mod Desired
pub mod Interfaces
pub mod Cluster
pub mod Gateway
pub mod Reconcile
pub mod Injected
pub mod Copies
