-- ===== src/Node/Assembly.antt =====
-- What `LoadNode` of src/node/mod.rs puts together, with the add-ons of src/rpc/mod.rs and the layer
-- of src/rpc/backpressure.rs. The builders keep nothing but what is shown.
use load_reth.Common.{ℕ, ◌≡◌, refl, Option, Result, String}
use load_reth.Prevrandao.{B256}
use load_reth.Chain.Types.{LoadChainSpec}
use load_reth.Payload.Attributes.{LoadPayloadAttributes, build_local}
use load_reth.Backpressure.Config.{LoadRpcBackpressureConfig, EnvVar, from_env}
use load_reth.Backpressure.Service.{World, new_world}

pub data LoadPoolBuilder : Type 0 where
  load_pool_builder : LoadPoolBuilder

pub data LoadExecutorBuilder : Type 0 where
  load_executor_builder : LoadExecutorBuilder

pub data LoadPayloadServiceBuilder : Type 0 where
  load_payload_service_builder : LoadPayloadServiceBuilder

pub data LoadNetworkBuilder : Type 0 where
  load_network_builder : LoadNetworkBuilder

pub data LoadConsensusBuilder : Type 0 where
  load_consensus_builder : LoadConsensusBuilder

pub data LoadEngineValidatorBuilder : Type 0 where
  load_engine_validator_builder : LoadEngineValidatorBuilder

pub record LoadEngineApiBuilder (V : Type 0) : Type 0 where
  pub payload_validator_builder : V

-- `LoadEngineApiBuilder::default` at the validator's builder
abbrev pub default_engine_api_builder : LoadEngineApiBuilder LoadEngineValidatorBuilder
default_engine_api_builder = record { payload_validator_builder = load_engine_validator_builder }

-- reth's `ComponentsBuilder`, as its setters leave it; `P` is `BasicPayloadServiceBuilder`.
pub record ComponentsBuilder (P : Type 0) : Type 0 where
  pub pool : LoadPoolBuilder
  pub executor : LoadExecutorBuilder
  pub payload : P
  pub network : LoadNetworkBuilder
  pub consensus : LoadConsensusBuilder

-- `LoadNode::components_builder`; the argument is `BasicPayloadServiceBuilder::new`.
unfoldable pub components_builder :
    {P : Type 0} → (LoadPayloadServiceBuilder → P) → ComponentsBuilder P
components_builder new_payload_service = record {
  pool = load_pool_builder;
  executor = load_executor_builder;
  payload = new_payload_service load_payload_service_builder;
  network = load_network_builder;
  consensus = load_consensus_builder;
}

-- The layer, with the state that all its clones share.
pub record LoadRpcBackpressureLayer (W : Type 0) : Type 0 where
  pub config : LoadRpcBackpressureConfig
  pub state : World W

unfoldable pub new_layer : {W : Type 0} → LoadRpcBackpressureConfig → W → LoadRpcBackpressureLayer W
unfolding new_world
new_layer config outside = record { config = config; state = new_world outside }

-- `LoadRpcBackpressureLayer::from_env`
unfoldable pub layer_from_env :
    {W : Type 0} → (String → EnvVar) → (String → Option ℕ) → W → LoadRpcBackpressureLayer W
unfolding new_layer from_env
layer_from_env var parse outside = new_layer (from_env var parse) outside

-- reth's `RpcAddOns`, with what its constructor is given; `Eth` is `EthereumEthApiBuilder`, `E` is
-- `BasicEngineValidatorBuilder`.
pub record RpcAddOns (Eth E W : Type 0) : Type 0 where
  pub eth_api_builder : Eth
  pub payload_validator_builder : LoadEngineValidatorBuilder
  pub engine_api_builder : LoadEngineApiBuilder LoadEngineValidatorBuilder
  pub engine_validator_builder : E
  pub rpc_middleware : LoadRpcBackpressureLayer W

pub record LoadAddOns (Eth E W : Type 0) : Type 0 where
  pub inner : RpcAddOns Eth E W

module _ {Eth E W : Type 0} (default_eth : Eth)
    (new_engine_validator : LoadEngineValidatorBuilder → E) (var : String → EnvVar)
    (parse : String → Option ℕ) (outside : W) where
  -- `LoadNode::add_ons`
  unfoldable pub add_ons : RpcAddOns Eth E W
  unfolding layer_from_env
  add_ons = record {
    eth_api_builder = default_eth;
    payload_validator_builder = load_engine_validator_builder;
    engine_api_builder = default_engine_api_builder;
    engine_validator_builder = new_engine_validator load_engine_validator_builder;
    rpc_middleware = layer_from_env var parse outside;
  }

  -- `LoadAddOns::default`
  unfoldable pub default_add_ons : LoadAddOns Eth E W
  unfolding layer_from_env
  default_add_ons = record {
    inner = record {
      eth_api_builder = default_eth;
      payload_validator_builder = load_engine_validator_builder;
      engine_api_builder = default_engine_api_builder;
      engine_validator_builder = new_engine_validator load_engine_validator_builder;
      rpc_middleware = layer_from_env var parse outside;
    };
  }

  -- The node's add-ons and the default ones of src/rpc/mod.rs are the same.
  add_ons-default : default_add_ons.inner ≡ add_ons
  unfolding add_ons default_add_ons
  add_ons-default = refl

-- `LoadAddOns::launch_add_ons`, on reth's own for what is wrapped.
unfoldable pub launch_add_ons :
    {Eth E W Context Handle : Type 0}
    → (RpcAddOns Eth E W → Context → Result String Handle)
    → LoadAddOns Eth E W
    → Context
    → Result String Handle
launch_add_ons launch add_ons ctx = launch add_ons.inner ctx

-- `LoadNode::local_payload_attributes_builder`, which keeps the specification: what it builds of a
-- random root and the parent's timestamp.
unfoldable pub local_payload_attributes_builder : LoadChainSpec → B256 → ℕ → LoadPayloadAttributes
unfolding build_local
local_payload_attributes_builder chain_spec = build_local chain_spec

-- `LoadNode::rpc_to_primitive_block`, of alloy's two conversions.
unfoldable pub rpc_to_primitive_block :
    {RpcBlock Converted Block : Type 0}
    → (RpcBlock → Converted)
    → (Converted → Block)
    → RpcBlock
    → Block
rpc_to_primitive_block into_consensus convert_transactions rpc_block =
    convert_transactions (into_consensus rpc_block)
