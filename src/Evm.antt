-- ===== src/Evm.antt =====
-- The EVM environment of the Load Network: evm/mod.rs.
pub mod Defs
pub mod Policy
pub mod Caps
pub mod Delegations
mod Tests
