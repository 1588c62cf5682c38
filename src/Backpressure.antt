-- ===== src/Backpressure.antt =====
-- The limits on concurrent RPC calls: rpc/backpressure.rs.
-- `Config` holds the limits and the guarded methods, `Gate` the gate that counts the calls in
-- flight, step by step, `Semaphore` its specification, `Meters` the metrics, `Service` calls and
-- batches, and `System` all gates with any number of callers; the other modules hold the proofs.
pub mod Config
pub mod Gate
pub mod Methods
pub mod Capacity
pub mod Semaphore
pub mod Refinement
pub mod Service
pub mod Meters
pub mod Call
pub mod Batch
pub mod Sequence
pub mod Retries
pub mod Freshness
pub mod System
pub mod Projection
mod Tests
mod Races
mod Gauge
