-- ===== src/Protocol/Origin.antt =====
-- src/protocol/origin.rs: the origin's handler. The validators and the two hash comparisons stand
-- in the child `Checks`, the coarse pass in `Coarse` and the fine pass of one group in `Fine`.
pub mod Checks
pub mod Coarse
pub mod Fine
pub mod Strategy
pub mod Acceptance
pub mod Acks
