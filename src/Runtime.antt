-- ===== src/Runtime.antt =====
-- The package tunnel_sync/runtime: what starts a synchronization.
pub mod Scheduler
pub mod Debounce
