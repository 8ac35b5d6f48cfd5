-- ===== src/Routes.antt =====
-- The route injector (internal/routes): the routes that a node should have, the link documents of
-- its machine configuration, and the wait until Talos has applied them.
pub mod Types
pub mod Interfaces
pub mod Desired
pub mod Documents
pub mod Applied
pub mod Reconcile
