-- ===== src/Validator.antt =====
-- src/engine/validator.rs: the Engine API validator.
-- `Defs` holds the definitions, `Acceptance` the proofs.
pub mod Defs
pub mod Acceptance
pub mod Tests
