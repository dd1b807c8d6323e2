-- ===== src/Ha.antt =====
-- src/ha.rs: the lease-based control loop of a single-writer cluster.
pub mod Lease
pub mod LeaseFile
pub mod Fence
pub mod Runtime
pub mod Controller
