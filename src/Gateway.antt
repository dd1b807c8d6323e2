-- ===== src/Gateway.antt =====
-- src/gateway: the SQL gateway, its parts as modules.
pub mod Status
pub mod Auth
pub mod Values
pub mod Host
pub mod Paths
pub mod Engine
pub mod Server
pub mod Replication
