-- ===== src/Types.antt =====
-- common/src/types/mod.rs and common/src/apptainer.rs: the data that the components exchange.
pub mod Floats
pub mod Container
pub mod Job
pub mod Step
pub mod Cluster
pub mod Dependency
