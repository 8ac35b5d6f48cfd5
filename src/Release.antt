-- ===== src/Release.antt =====
-- The Release controller (controllers/dockyardsrelease_controller.go): it asks for the images of a
-- Release, and records the versions that are found.
pub mod Types
pub mod Policies
pub mod Kubernetes
pub mod Talos
pub mod Reconcile
