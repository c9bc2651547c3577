-- ===== src/Mock/Latency.antt =====
-- The latency that the active faults add to a reply.
pub mod Sums
pub mod Delays
pub mod Poison
