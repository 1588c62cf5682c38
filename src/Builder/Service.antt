-- ===== src/Builder/Service.antt =====
-- `LoadPayloadBuilder` and the service's builder of it. The client and the EVM configuration that it
-- keeps are behind `node` and `chain_spec`, the pool is behind `calls`, with the mark of cancellation
-- that the arguments bring.
use load_reth.Common.{ℕ, Option, Result, ok, String}
use load_reth.Chain.Types.{LoadChainSpec, Upstream}
use load_reth.Payload.Attributes.{LoadPayloadBuilderAttributes}
use load_reth.Payload.Built.{LoadBuiltPayload}
use load_reth.Builder.Types.{Calls}
use load_reth.Builder.Build.{
  Header, Node, BuilderConfig, BuildFailure, BuildOutcome, builder_config, default_load_payload,
}

pub record LoadPayloadBuilder (I B Block : Type 0) : Type 0 where
  pub calls : Calls I B
  pub node : Node I B Block
  pub chain_spec : LoadChainSpec
  pub builder_config : BuilderConfig

-- reth's `BuildArguments`, without the cached reads.
pub record BuildArguments (Block : Type 0) : Type 0 where
  pub parent_header : Header
  pub attributes : LoadPayloadBuilderAttributes
  pub best_payload : Option (LoadBuiltPayload Block)

-- `LoadPayloadServiceBuilder::build_payload_builder`, on the operator's gas limit.
unfoldable pub build_payload_builder :
    {I B Block : Type 0}
    → Calls I B
    → Node I B Block
    → LoadChainSpec
    → Option ℕ
    → Result String (LoadPayloadBuilder I B Block)
build_payload_builder calls node chain_spec gas_limit = ok (record {
  calls = calls;
  node = node;
  chain_spec = chain_spec;
  builder_config = builder_config gas_limit;
})

unfoldable pub try_build :
    {I B Block : Type 0}
    → Upstream
    → LoadPayloadBuilder I B Block
    → ℕ
    → BuildArguments Block
    → Result BuildFailure (BuildOutcome Block)
try_build u self fuel args =
    default_load_payload u self.calls self.node self.chain_spec self.builder_config fuel
      args.parent_header args.attributes args.best_payload
