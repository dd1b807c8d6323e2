-- ===== src/Tests.antt =====
-- Runs of the theorems at concrete databases, nodes and leases.
pub mod Databases
pub mod Syncs
pub mod Pages
pub mod Nodes
pub mod Frames
pub mod Files
pub mod Batches
pub mod Gateways
pub mod Clients
pub mod Endpoints
pub mod Loops
pub mod Commands
pub mod Replications
