-- ===== src/Worker.antt =====
-- worker/src: what runs beside the jobs on a machine.
pub mod Pmi
