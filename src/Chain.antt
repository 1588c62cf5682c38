-- ===== src/Chain.antt =====
-- src/chainspec/mod.rs: the chain specification.
-- `Types` holds the data, `Genesis` the checks on a genesis, `Spec` the construction of the
-- specification and `Delegations` what it hands on to reth's; `Guardrails` and `Blobs` prove what they guarantee.
pub mod Types
pub mod Genesis
pub mod Spec
pub mod Delegations
pub mod Guardrails
pub mod Blobs
pub mod Tests
