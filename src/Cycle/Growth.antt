-- ===== src/Cycle/Growth.antt =====
-- Chains of blocks, each made by the payload builder on the one before it.
use load_reth.Common.{
  ℕ, ◌+◌, ◌≡◌, refl, ◌∙◌, ap, ◌≤◌, ◌<◌, List, [], ◌∷◌, length, Option, ok, arith, All,
}
use load_reth.Prevrandao.{B256, load_prevrandao}
use load_reth.Chain.Types.{Genesis, LoadChainSpec, Upstream, UpstreamLaws, load_max_blob_count}
use load_reth.Chain.Spec.{from_genesis}
use load_reth.Payload.Attributes.{LoadPayloadBuilderAttributes}
use load_reth.Payload.Built.{Bytes, LoadBuiltPayload}
use load_reth.Payload.Execution.{ExecutionPayload, Alloy, block_to_payload}
use load_reth.Validator.Defs.{RethChecks, convert_payload_to_block}
use load_reth.Builder.Types.{Tx, Calls, CallLaws, PoolLaws}
use load_reth.Builder.Reaches.{Reaches-kept}
use load_reth.Builder.Build.{
  Header, NextBlockEnv, Node, BuilderConfig, better, limits_of, next_env, default_load_payload,
}
use load_reth.Builder.Rules.{NodeLaws, IsLoadBlock}
use load_reth.Builder.Block.{default_load_payload-IsLoadBlock}
use load_reth.Cycle.Blocks.{Reading, SealLaws, mix_hash_fixed, few_hashes}
use load_reth.Cycle.Validation.{PayloadLaws, convert_payload_to_block-block_to_payload}

-- What is read of the environment of a block.
pub record BlockEnv : Type 0 where
  pub timestamp : ℕ
  pub number : ℕ

-- reth's promises on that environment: it has the timestamp that it was asked for and the number
-- after the parent's, no call changes it, and the header of the finished block carries it.
pub record HeaderLaws {I B Block : Type 0} (c : Calls I B) (node : Node I B Block)
    (header : Block → Header) (block_env : B → BlockEnv) : Type 0 where
  pub asked_for :
      (parent : Header) (env : NextBlockEnv) (b : B)
      → node.builder_for_next_block parent env ≡ ok b
      → block_env b ≡ record { timestamp = env.timestamp; number = parent.number + 1 }
  pub kept_by_preparation :
      (b ready : B) → node.apply_pre_execution_changes b ≡ ok ready → block_env ready ≡ block_env b
  pub kept_by_execution : (b : B) (tx : Tx) → block_env (c.execute_transaction b tx).1 ≡ block_env b
  pub sealed_env :
      (b : B) (requests : List Bytes) (block : Block)
      → node.finish b ≡ ok (requests, block)
      → ((header block).timestamp ≡ (block_env b).timestamp)
        × ((header block).number ≡ (block_env b).number)

module _ {I B Block : Type 0} (u : Upstream) (c : Calls I B) (node : Node I B Block)
    (spec : LoadChainSpec) (config : BuilderConfig) (header : Block → Header) where
  -- From the first header to the last, each block is a better payload of `default_load_payload` on
  -- the header before it, for attributes that are allowed there.
  pub data Extends (Allowed : Header → LoadPayloadBuilderAttributes → Type 0)
      : Header → List Block → Header → Type 0 where
    ended : {last : Header} → Extends Allowed last [] last
    grown :
        {parent last : Header} {blocks : List Block} (attrs : LoadPayloadBuilderAttributes)
        (fuel : ℕ) (best : Option (LoadBuiltPayload Block)) (p : LoadBuiltPayload Block)
        → Allowed parent attrs
        → default_load_payload u c node spec config fuel parent attrs best ≡ ok (better p)
        → Extends Allowed (header p.inner.block) blocks last
        → Extends Allowed parent (p.inner.block ∷ blocks) last

  -- Each block comes after the header before it, in time, and next to it, in number.
  abbrev pub Ascends : Header → List Block → Header → Type 0
  Ascends parent [] last = parent ≡ last
  Ascends parent (b ∷ rest) last =
      (parent.timestamp < (header b).timestamp)
      × ((header b).number ≡ parent.number + 1)
      × Ascends (header b) rest last

  Ascends-length :
      (parent : Header) (blocks : List Block) (last : Header)
      → Ascends parent blocks last
      → (parent.timestamp + length blocks ≤ last.timestamp)
        × (last.number ≡ parent.number + length blocks)
  Ascends-length parent [] last h =
      (omega (arith, ap (λ x. x.timestamp) h), omega (arith, ap (λ x. x.number) h))
  Ascends-length parent (b ∷ rest) last (later, next, h) =
      let (time, number) = Ascends-length (header b) rest last h in (omega arith, omega arith)

  module _ (block_env : B → BlockEnv) (headers : HeaderLaws c node header block_env)
      (parent : Header) (attrs : LoadPayloadBuilderAttributes) (p : LoadBuiltPayload Block)
      (is_block : IsLoadBlock u c node spec config parent attrs p) where
    env_kept :
        block_env is_block.last
        ≡ record { timestamp = attrs.inner.timestamp; number = parent.number + 1 }
    unfolding next_env
    env_kept =
        Reaches-kept c.execute_transaction block_env headers.kept_by_execution is_block.reached
        ∙ headers.kept_by_preparation is_block.start is_block.ready is_block.prepared
        ∙ headers.asked_for parent _ is_block.start is_block.started

    pub header-attributes :
        ((header p.inner.block).timestamp ≡ attrs.inner.timestamp)
        × ((header p.inner.block).number ≡ parent.number + 1)
    header-attributes =
        let (time, number) =
          headers.sealed_env is_block.last is_block.requests p.inner.block is_block.finished in
        (time ∙ ap (λ e. e.timestamp) env_kept, number ∙ ap (λ e. e.number) env_kept)

module _ {I B Block S : Type 0} (u : Upstream) (c : Calls I B) (node : Node I B Block)
    (spec : LoadChainSpec) (config : BuilderConfig) (a : Alloy S) (r : RethChecks S Block)
    (read : Reading Block) (prev_randao : B → B256)
    (from_block_unchecked : B256 → Block → ExecutionPayload × S) (laws : CallLaws c)
    (node_laws : NodeLaws c node) (seals : SealLaws c node read prev_randao)
    (payloads : PayloadLaws node a r read from_block_unchecked) (g : Genesis)
    (u_laws : UpstreamLaws u) (made : from_genesis u g ≡ ok spec) (header : Block → Header)
    (block_env : B → BlockEnv) (headers : HeaderLaws c node header block_env)
    (pool : (attrs : LoadPayloadBuilderAttributes) (b : B)
      → PoolLaws c (limits_of u c node spec config attrs b)) where
  -- The block has the constant randomness and 1024 blobs at most, and the validator takes it back.
  pub record IsAccepted (b : Block) : Type 0 where
    pub fixed_randao : read.mix_hash b ≡ load_prevrandao
    pub few_blobs : length (read.blob_versioned_hashes b) ≤ load_max_blob_count
    pub validated :
        convert_payload_to_block a r spec (block_to_payload read.hash from_block_unchecked b) ≡ ok b

  grows :
      {Allowed : Header → LoadPayloadBuilderAttributes → Type 0} {parent last : Header}
      {blocks : List Block}
      → Extends u c node spec config header Allowed parent blocks last
      → Ascends u c node spec config header parent blocks last × All IsAccepted blocks
  grows ended = (refl, tt)
  grows (grown {parent} attrs fuel best p allowed built rest) =
      let is_block =
        default_load_payload-IsLoadBlock u c node spec config laws node_laws parent attrs
          (pool attrs) fuel best p built in
      let (time, number) =
        header-attributes u c node spec config header block_env headers parent attrs p is_block in
      let (ascending, accepted) = grows rest in
      (
        (omega (arith, is_block.later, time), number, ascending),
        (
          record {
            fixed_randao = mix_hash_fixed read prev_randao seals parent attrs p is_block;
            few_blobs = few_hashes read prev_randao seals parent attrs p is_block;
            validated =
                convert_payload_to_block-block_to_payload u c node spec config a r read prev_randao
                  from_block_unchecked laws node_laws seals payloads g u_laws made parent attrs
                  (pool attrs) fuel best p built;
          },
          accepted,
        ),
      )

  -- On a specification that `from_genesis` has made, along any chain of better payloads of
  -- `default_load_payload`, each built on the header of the one before it, for any attributes, pools,
  -- best payloads so far and fuel: the timestamps strictly rise and the numbers go up by one, so the
  -- last header is as many blocks and at least as many seconds after the first as the chain is long;
  -- and every block of it has the constant randomness, at most 1024 blobs, and is accepted by the
  -- validator as it is.
  pub Extends-Ascends :
      {Allowed : Header → LoadPayloadBuilderAttributes → Type 0} {parent last : Header}
      {blocks : List Block}
      → Extends u c node spec config header Allowed parent blocks last
      → Ascends u c node spec config header parent blocks last
        × (parent.timestamp + length blocks ≤ last.timestamp)
        × (last.number ≡ parent.number + length blocks)
        × All IsAccepted blocks
  Extends-Ascends {parent = parent} {last = last} {blocks = blocks} chain =
      let (ascending, accepted) = grows chain in
      let (time, number) =
        Ascends-length u c node spec config header parent blocks last ascending in
      (ascending, time, number, accepted)
