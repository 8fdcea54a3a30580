-- ===== src/Domain.antt =====
-- The packages tunnel_sync/domain: pure values and decisions, no I/O.
pub mod Models
pub mod Hostnames
pub mod Labels
pub mod Diagnostics
pub mod Ingress
pub mod Plan
pub mod Routes
pub mod Records
pub mod Planner
pub mod Snapshots
pub mod Plausibility
