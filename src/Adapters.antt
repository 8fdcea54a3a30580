-- ===== src/Adapters.antt =====
-- The package tunnel_sync/adapters: the clients of the outside world.
pub mod Cloudflare
pub mod Notifications
pub mod Docker
pub mod Connector
