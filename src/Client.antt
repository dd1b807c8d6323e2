-- ===== src/Client.antt =====
-- crates/rsqlite-rsync-client: the client of the gateway, its parts as modules.
pub mod Discovery
pub mod Retry
