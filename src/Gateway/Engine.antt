-- ===== src/Gateway/Engine.antt =====
-- src/gateway/engine.rs: `DatabaseEngine`, the statements, queries, batches and deletions. The state of
-- the host is passed from call to call, and so is the table of locks; waiting for a lock is left out.
pub mod Binding
pub mod Query
pub mod Batch
pub mod Drop
