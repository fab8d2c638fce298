-- ===== src/Filter.antt =====
-- internal/filter: the pre-incident ring buffer, the alert suppressor and the heartbeat aggregator.
pub mod Heartbeat
pub mod RingBuffer
pub mod Suppressor
