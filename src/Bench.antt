-- ===== src/Bench.antt =====
-- The benchmark harness of src/bench_utils.rs and src/bin: the workers' reports, how long they watch
-- the traffic, and how the orchestrator sums up.
pub mod Report
pub mod Bandwidth
pub mod Orchestrator
pub mod Workers
mod Examples
