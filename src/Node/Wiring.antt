-- ===== src/Node/Wiring.antt =====
-- The parts of the node that its builders make from its context: the EVM configuration of
-- src/evm/mod.rs, the consensus of src/consensus/mod.rs and the validator of
-- src/engine/validator.rs; and the pair of them that main.rs hands to the command line.
use load_reth.Common.{Result, ok, String}
use load_reth.Chain.Types.{LoadChainSpec}

-- What the builders read of the context: the specification that it keeps.
pub record BuilderContext : Type 0 where
  pub chain_spec : LoadChainSpec

-- `UpstreamEvmConfig`, the payload validator and the consensus of reth, made of a specification.
pub record Constructors (Evm Validator Consensus : Type 0) : Type 0 where
  pub evm_config : LoadChainSpec → Evm
  pub payload_validator : LoadChainSpec → Validator
  pub beacon_consensus : LoadChainSpec → Consensus

pub record LoadEvmConfig (Evm : Type 0) : Type 0 where
  pub inner : Evm

pub record LoadEngineValidator (Validator : Type 0) : Type 0 where
  pub inner : Validator

module _ {Evm Validator Consensus : Type 0} (k : Constructors Evm Validator Consensus) where
  unfoldable pub new_evm_config : LoadChainSpec → LoadEvmConfig Evm
  new_evm_config spec = record { inner = k.evm_config spec }

  unfoldable pub build_evm : BuilderContext → Result String (LoadEvmConfig Evm)
  unfolding new_evm_config
  build_evm ctx = ok (new_evm_config ctx.chain_spec)

  unfoldable pub new_validator : LoadChainSpec → LoadEngineValidator Validator
  new_validator spec = record { inner = k.payload_validator spec }

  unfoldable pub build_validator : BuilderContext → Result String (LoadEngineValidator Validator)
  unfolding new_validator
  build_validator ctx = ok (new_validator ctx.chain_spec)

  unfoldable pub build_consensus : BuilderContext → Result String Consensus
  build_consensus ctx = ok (k.beacon_consensus ctx.chain_spec)

  -- `cli_components_builder` of `main`
  unfoldable pub cli_components : LoadChainSpec → LoadEvmConfig Evm × Consensus
  unfolding new_evm_config
  cli_components spec = (new_evm_config spec, k.beacon_consensus spec)
