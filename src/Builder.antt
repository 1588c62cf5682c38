-- ===== src/Builder.antt =====
-- src/engine/builder.rs: the payload builder.
-- `Types` holds the data and what is called of reth, `Loop` the selection of transactions, `Build`
-- the whole build, and `Selection` what the loop ought to select; the other modules hold the proofs.
pub mod Types
pub mod Loop
pub mod Build
pub mod Service
pub mod Totals
pub mod Selection
pub mod Judged
pub mod Selected
pub mod Commit
pub mod Reaches
pub mod Invariant
pub mod Termination
pub mod Rules
pub mod Block
pub mod Progress
pub mod Envelope
pub mod Empty
pub mod Sample
mod Tests
pub mod Healthy
