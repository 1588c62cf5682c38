-- ===== src/Payload.antt =====
-- src/engine/payload.rs: payload attributes, built payloads and execution payload data.
-- `Attributes`, `Built`, `Execution` and `Delegations` hold the definitions; `Admission` and `Envelopes` the proofs.
pub mod Attributes
pub mod Built
pub mod Execution
pub mod Delegations
pub mod Admission
pub mod Envelopes
pub mod Tests
