-- ===== src/Tests.antt =====
-- Concrete inputs, on which the theorems are applied.
mod Data
mod Discovery
mod Concurrent
mod Codec
mod Providers
mod Releases
mod Admission
mod Commands
mod Links
mod Controller
mod Machines
mod Keeper
mod Nodes
mod Injected
mod Copies
mod Client
