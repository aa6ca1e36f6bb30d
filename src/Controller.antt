-- ===== src/Controller.antt =====
-- The controller (controller/src): its state, the books of its workers, jobs, steps and logs.
pub mod Messages
pub mod State
pub mod Worker
pub mod Usage
pub mod Auth
pub mod RateLimit
pub mod Reservations
pub mod Finalize
pub mod Timeouts
pub mod Rebuild
pub mod Pmi
pub mod Sessions
pub mod Submission
pub mod Reports
pub mod Reconcile
pub mod Steps
pub mod JobLogs
