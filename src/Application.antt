-- ===== src/Application.antt =====
-- The package tunnel_sync/application: the cycle around the planner.
pub mod Ports
pub mod Policy
pub mod Calls
pub mod Executor
pub mod Activation
pub mod Tombstones
pub mod Fetching
pub mod Discovery
pub mod Reports
pub mod Reporter
pub mod Cycle
pub mod Preview
