-- ===== src/Evm/Delegations.antt =====
-- The calls that `LoadEvmConfig` of evm/mod.rs hands on to the configuration that it wraps.
use load_reth.Common.{Result}
use load_reth.Chain.Types.{LoadChainSpec}
use load_reth.Payload.Execution.{LoadExecutionData}
use load_reth.Builder.Build.{Header, NextBlockEnv}

-- reth's `EthEvmConfig` beside its environments. `Ctx` and `Txs` are its execution contexts and
-- transaction iterators, `Factory` and `Assembler` its parts.
pub record ContextCalls (S Block Ctx Txs Factory Assembler E : Type 0) : Type 0 where
  pub chain_spec : LoadChainSpec
  pub block_executor_factory : Factory
  pub block_assembler : Assembler
  pub context_for_block : Block → Result E Ctx
  pub context_for_next_block : Header → NextBlockEnv → Result E Ctx
  pub context_for_payload : LoadExecutionData S → Result E Ctx
  pub tx_iterator_for_payload : LoadExecutionData S → Result E Txs

module _ {S Block Ctx Txs Factory Assembler E : Type 0}
    (inner : ContextCalls S Block Ctx Txs Factory Assembler E) where
  unfoldable pub block_executor_factory : Factory
  block_executor_factory = inner.block_executor_factory

  unfoldable pub block_assembler : Assembler
  block_assembler = inner.block_assembler

  unfoldable pub context_for_block : Block → Result E Ctx
  context_for_block block = inner.context_for_block block

  unfoldable pub context_for_next_block : Header → NextBlockEnv → Result E Ctx
  context_for_next_block parent attributes = inner.context_for_next_block parent attributes

  unfoldable pub context_for_payload : LoadExecutionData S → Result E Ctx
  context_for_payload payload = inner.context_for_payload payload

  unfoldable pub tx_iterator_for_payload : LoadExecutionData S → Result E Txs
  tx_iterator_for_payload payload = inner.tx_iterator_for_payload payload
