-- ===== src/Cycle/Local.antt =====
-- The chain of a node that makes its own payload attributes and imports its own blocks.
use load_reth.Common.{ℕ, ◌≡◌, List, [], ◌∷◌, none, ok}
use load_reth.Prevrandao.{B256}
use load_reth.Chain.Types.{LoadChainSpec, Upstream}
use load_reth.Payload.Attributes.{LoadPayloadBuilderAttributes, EthTryNew, try_new, build_local}
use load_reth.Payload.Built.{LoadBuiltPayload}
use load_reth.Builder.Types.{Calls}
use load_reth.Builder.Build.{Header, Node, BuilderConfig, better, default_load_payload}
use load_reth.Builder.Rules.{IsLoadBlock}
use load_reth.Cycle.Ready.{IsReady}

module _ {W I B Block : Type 0} (u : Upstream) (c : Calls I B) (node : W → Node I B Block)
    (import_block : Block → W → W) (spec : LoadChainSpec) (config : BuilderConfig)
    (header : Block → Header) where
  -- reth's promise on its engine: of a block that its builder has finished on a header that the node
  -- was ready for, the import makes the node ready for the block's own header.
  pub record ImportLaws : Type 0 where
    pub ready_after :
        (w : W) (parent : Header) (attrs : LoadPayloadBuilderAttributes)
        (p : LoadBuiltPayload Block)
        → IsReady (node w) parent
        → IsLoadBlock u c (node w) spec config parent attrs p
        → IsReady (node (import_block p.inner.block w)) (header p.inner.block)

  -- From one state of the node and its head to another, each block is a better payload of
  -- `default_load_payload` on the head, for attributes that are allowed there, and is imported before
  -- the next one is built.
  pub data Imports (Allowed : Header → LoadPayloadBuilderAttributes → Type 0)
      : W → Header → List Block → W → Header → Type 0 where
    ended : {w : W} {last : Header} → Imports Allowed w last [] w last
    grown :
        {w w' : W} {parent last : Header} {blocks : List Block}
        (attrs : LoadPayloadBuilderAttributes) (fuel : ℕ) (p : LoadBuiltPayload Block)
        → Allowed parent attrs
        → default_load_payload u c (node w) spec config fuel parent attrs none ≡ ok (better p)
        → Imports Allowed (import_block p.inner.block w) (header p.inner.block) blocks w' last
        → Imports Allowed w parent (p.inner.block ∷ blocks) w' last

-- The local builder's attributes on the header, for some random root.
pub record IsLocal (spec : LoadChainSpec) (eth_try_new : EthTryNew) (version : ℕ) (parent : Header)
    (attrs : LoadPayloadBuilderAttributes) : Type 0 where
  pub root : B256
  pub taken :
      try_new eth_try_new parent.hash (build_local spec root parent.timestamp) version ≡ ok attrs
