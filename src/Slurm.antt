-- ===== src/Slurm.antt =====
-- veloce-slurm/src: what the Slurm-shaped command lines parse and start.
pub mod Time
pub mod Spec
pub mod Gres
pub mod Options
pub mod Values
pub mod Script
pub mod Parse
pub mod Tools
pub mod Invoke
pub mod Format
pub mod Facade
