-- ===== src/Discovery.antt =====
-- The cluster discovery server (internal/discovery): its data, its handlers, the watchers that it
-- broadcasts to, and the persister that listens to the broadcasts.
pub mod Types
pub mod Watchers
pub mod Garbage
pub mod Update
pub mod Delete
pub mod Listing
pub mod Hello
pub mod Watch
pub mod Persister
pub mod Providers
pub mod Lifecycle
pub mod Options
pub mod Consistency
pub mod History
pub mod Concurrent
