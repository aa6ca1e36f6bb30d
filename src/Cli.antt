-- ===== src/Cli.antt =====
-- cli/src/main.rs: the dependencies and the array range of `submit`.
pub mod ArrayRange
pub mod Dependencies
