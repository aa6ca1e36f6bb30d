-- ===== src/Common.antt =====
-- common/src: the ring buffer and the policy for the environment of a job.
pub mod JobPolicy
pub mod RingBuffer
