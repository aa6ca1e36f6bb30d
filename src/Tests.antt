-- ===== src/Tests.antt =====
-- The theorems at a small cluster: one worker, a preemptible job that runs on it, and an interactive
-- job that waits.
mod Fixtures
mod Books
mod Passes
mod Jobs
mod Cli
mod Clients
mod Reports
mod Pmi
mod Sessions
mod Submission
mod Logs
mod Slurm
