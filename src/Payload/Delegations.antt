-- ===== src/Payload/Delegations.antt =====
-- The traits that engine/payload.rs implements by the data it wraps: of the builder's attributes,
-- of the built payload, and of the execution data.
use load_reth.Common.{ℕ, Option, List, Result}
use load_reth.Prevrandao.{B256}
use load_reth.Payload.Attributes.{
  Withdrawal, EthPayloadBuilderAttributes, LoadPayloadBuilderAttributes,
}
use load_reth.Payload.Built.{EthBuiltPayload, LoadBuiltPayload}
use load_reth.Payload.Execution.{
  ExecutionPayloadV1, ExecutionPayload, ExecutionData, LoadExecutionData, Alloy,
}

-- `PayloadBuilderAttributes`
module _ (attrs : LoadPayloadBuilderAttributes) where
  unfoldable pub into_inner : EthPayloadBuilderAttributes
  into_inner = attrs.inner

  unfoldable pub payload_id : ℕ
  payload_id = attrs.inner.id

  unfoldable pub parent : B256
  parent = attrs.inner.parent

  unfoldable pub attributes_timestamp : ℕ
  attributes_timestamp = attrs.inner.timestamp

  unfoldable pub attributes_beacon_root : Option B256
  attributes_beacon_root = attrs.inner.parent_beacon_block_root

  unfoldable pub suggested_fee_recipient : List ℕ
  suggested_fee_recipient = attrs.inner.suggested_fee_recipient

  unfoldable pub prev_randao : B256
  prev_randao = attrs.inner.prev_randao

  unfoldable pub attributes_withdrawals : List Withdrawal
  attributes_withdrawals = attrs.inner.withdrawals

-- `BuiltPayload`, and the conversions to the V1 and V2 answers, which are reth's own.
module _ {Block Env2 : Type 0} (to_v1 : EthBuiltPayload Block → ExecutionPayloadV1)
    (to_v2 : EthBuiltPayload Block → Env2) (value : LoadBuiltPayload Block) where
  unfoldable pub into_v1 : ExecutionPayloadV1
  into_v1 = to_v1 value.inner

  unfoldable pub into_v2 : Env2
  into_v2 = to_v2 value.inner

-- What alloy reads of a payload beside `Alloy`.
pub record PayloadReaders : Type 0 where
  pub parent_hash : ExecutionPayload → B256
  pub block_hash : ExecutionPayload → B256
  pub block_number : ExecutionPayload → ℕ

-- `ExecutionPayloadTrait`, and the parts of `LoadExecutionData`.
module _ {S : Type 0} (a : Alloy S) (r : PayloadReaders) (d : LoadExecutionData S) where
  unfoldable pub parent_hash : B256
  parent_hash = r.parent_hash d.inner.payload

  unfoldable pub block_hash : B256
  block_hash = r.block_hash d.inner.payload

  unfoldable pub block_number : ℕ
  block_number = r.block_number d.inner.payload

  unfoldable pub withdrawals : Option (List Withdrawal)
  withdrawals = a.withdrawals d.inner.payload

  unfoldable pub parent_beacon_block_root : Option B256
  parent_beacon_block_root = a.parent_beacon_block_root d.inner.sidecar

  unfoldable pub timestamp : ℕ
  timestamp = a.timestamp d.inner.payload

  unfoldable pub into_parts : ExecutionPayload × S
  into_parts = (d.inner.payload, d.inner.sidecar)

  unfoldable pub into_execution_data : ExecutionData S
  into_execution_data = d.inner

-- reth's `ConfigureEngineEvm<ExecutionData>`, and the impl on `LoadExecutionData` that calls it.
pub record EngineEvm (S Env Ctx Txs E : Type 0) : Type 0 where
  pub evm_env_for_payload : ExecutionData S → Result E Env
  pub context_for_payload : ExecutionData S → Result E Ctx
  pub tx_iterator_for_payload : ExecutionData S → Result E Txs

module _ {S Env Ctx Txs E : Type 0} (evm : EngineEvm S Env Ctx Txs E)
    (payload : LoadExecutionData S) where
  unfoldable pub upstream_evm_env_for_payload : Result E Env
  upstream_evm_env_for_payload = evm.evm_env_for_payload payload.inner

  unfoldable pub context_for_payload : Result E Ctx
  context_for_payload = evm.context_for_payload payload.inner

  unfoldable pub tx_iterator_for_payload : Result E Txs
  tx_iterator_for_payload = evm.tx_iterator_for_payload payload.inner
