-- ===== src/Pool.antt =====
-- The transaction pool of the Load Network: pool/mod.rs. `Defs` has the sizes, `Build` the build of
-- the pool in the steps of `Action`, `Task` the task that watches the blob cache.
pub mod Defs
pub mod Limits
pub mod Task
pub mod Action
pub mod Build
pub mod Built
mod Tests
