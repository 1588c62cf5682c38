-- ===== src/Node.antt =====
-- src/main.rs and src/node/mod.rs: how the process starts, the settings of the peer-to-peer network,
-- and what the builders of the components make. `Assembly` is what the node puts together, with the
-- add-ons of src/rpc/mod.rs.
pub mod Launch
pub mod Network
pub mod Wiring
pub mod Assembly
pub mod Threshold
mod Tests
