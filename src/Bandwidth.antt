-- ===== src/Bandwidth.antt =====
-- modemproxy/services/bandwidth.py: traffic from cumulative counters, by windows and in buckets.
pub mod Deltas
pub mod Series
pub mod Report
pub mod Sampling
