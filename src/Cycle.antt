-- ===== src/Cycle.antt =====
-- What happens to a payload of src/engine/builder.rs in the other parts of the engine: the
-- validator of src/engine/validator.rs and the Engine API of src/engine/rpc.rs.
-- `Growth` and `Local` have chains of blocks, `Ready` what a node needs to build one, `Engine` and
-- `Slot` one slot through the Engine API.
pub mod Blocks
pub mod Validation
pub mod Submission
pub mod Request
pub mod Growth
pub mod Ready
pub mod Local
pub mod Engine
pub mod Slot
mod Tests
mod Requested
mod Devnet
mod Grown
mod Simulated
