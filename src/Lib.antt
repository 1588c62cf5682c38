-- ===== src/Lib.antt =====
-- The Load Network's execution client, a node on reth with its own rules: a constant PREVRANDAO,
-- up to 1024 blobs a block, and every fork up to Prague active at genesis.
--
-- The chain specification is checked and built when the node starts (chainspec/mod.rs). The
-- consensus layer drives the node through the Engine API (engine/rpc.rs), whose wrapper refuses
-- what breaks the rules before reth's engine sees it; the engine asks the validator
-- (engine/validator.rs) about payloads and attributes, and the builder (engine/builder.rs) for
-- blocks, whose payloads are converted to the envelopes of getPayload (engine/payload.rs). The EVM
-- configuration (evm/mod.rs) and the pool (pool/mod.rs) carry the same blob limits. Calls of three
-- RPC methods pass gates that bound how many run at once (rpc/backpressure.rs).
--
-- All paths are below src/ of the repository. Where the files are:
--   Common        shared notation: tests on numbers, lists, `Result`, machine words
--   Prevrandao    lib.rs: `LOAD_PREVRANDAO` and the comparison with it
--   Chain         chainspec/mod.rs: `validate_genesis`, `from_genesis`, `Default`, `parse`
--   Payload       engine/payload.rs: attributes, built payloads, execution data
--   Validator     engine/validator.rs: the checks of `LoadEngineValidator`
--   Builder       engine/builder.rs: `default_load_payload`; its loop is `Loop`, the rest `Build`
--   Evm           evm/mod.rs: the blob rules of `LoadEvmConfig`
--   Pool          pool/mod.rs: `build_pool`, with the sizes that it computes and the watching task
--   Rpc           engine/rpc.rs, metrics.rs, version.rs: the handlers of `LoadEngineApi`, and what
--                 `build_engine_api` gives the engine; `Session` is a sequence of requests
--   Backpressure  rpc/backpressure.rs: limits, method names, metrics, `MethodGate` under concurrency
--                 with a semaphore as its specification, the service around the gates, and
--                 `System`, all gates with any number of callers
--   Cycle         a payload of the builder in the validator and in the Engine API, a slot driven
--                 through it over the engine of `Cycle.Engine`, which is a parameter, and chains of
--                 blocks that are built one on the other
--   Node          main.rs and node/mod.rs: the start of the process, and `build_network`;
--                 consensus/mod.rs and the builders of the EVM and the validator; rpc/mod.rs and
--                 what `LoadNode` puts together
--   Transaction   transaction/mod.rs: `blob_count`
--
-- Mutable state is passed explicitly: the builder's loop has its variables in `LoopState`, a handler
-- takes and returns the metrics with the state outside, and the gate is a state that threads change
-- in atomic steps, any of which may come next. Numbers are the native ones; plain arithmetic on u64
-- and usize wraps, as in a release build on 64 bits. A B256 is the list of its bytes. What the
-- program calls of reth, alloy and the standard library is a parameter, such as `Upstream`, `Calls`,
-- `Node`, `Engine` and `Alloy`, and what is relied on is a record of laws beside it.
--
-- The loop of the builder runs on fuel, one for each round. Where a theorem says that a build ends,
-- the pool is taken to hand out finitely many transactions during it, those that arrive while the
-- build runs included (`IsFinite`), and the fuel is above their number: that is then enough. reth
-- itself gives no such bound; it ends a longer build by cancelling it. Nothing else needs fuel.
--
-- Not modelled: the aliases and associated types by which node/mod.rs, rpc/mod.rs and primitives/
-- name reth's types for reth's generic node; the mutable access to reth's RPC hooks; log lines;
-- the registration of the Engine API's metrics; the conversion of metrics to floats; and cached
-- state reads.
pub mod Common
pub mod Prevrandao
pub mod Chain
pub mod Payload
pub mod Validator
pub mod Builder
pub mod Evm
pub mod Pool
pub mod Rpc
pub mod Backpressure
pub mod Cycle
pub mod Node
pub mod Transaction
