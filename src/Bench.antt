-- ===== src/Bench.antt =====
-- The programs of bench/: a generator of load and a subscriber that measures latency.
pub mod Load
pub mod Latency
mod Tests
