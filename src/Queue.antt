-- ===== src/Queue.antt =====
-- The Kafka queue of internal/processor/queue: the offset tracker, and the loops around it.
pub mod Offsets
pub mod Commit
pub mod Producer
