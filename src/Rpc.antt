-- ===== src/Rpc.antt =====
-- The Engine API of the Load Network: engine/rpc.rs, and what it uses of metrics.rs and version.rs.
-- `Session` has sequences of requests.
pub mod Metrics
pub mod Types
pub mod Payloads
pub mod Queries
pub mod Version
pub mod Refusals
pub mod Guards
pub mod Counting
pub mod Blobs
pub mod Capabilities
pub mod Session
pub mod Accounts
pub mod Tests
mod Served
