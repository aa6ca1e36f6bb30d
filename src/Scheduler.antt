-- ===== src/Scheduler.antt =====
-- controller/src/scheduler/mod.rs: dependencies, the order of the queue, and the scheduling pass.
pub mod Dependencies
pub mod Cycle
pub mod Fits
pub mod Selection
pub mod Projection
pub mod Launch
pub mod Pass
