-- ===== src/Pool/Build.antt =====
-- `LoadPoolBuilder::build_pool` of pool/mod.rs around the sizes, on the state `W` of the node.
use load_reth.Common.{ℕ, Bool, true, Option, Result, String}
use load_reth.Chain.Types.{LoadChainSpec, Upstream}
use load_reth.Pool.Defs.{PoolConfig, build_pool_config}
use load_reth.Pool.Action.{Action, always, reads, ◌>>=◌, ◌>>◌}

-- What the builder reads of the node's configuration for the validator.
pub record ValidatorConfig : Type 0 where
  pub max_tx_input_bytes : ℕ
  pub rpc_tx_fee_cap : ℕ
  pub max_tx_gas_limit : Option ℕ
  pub minimum_priority_fee : Option ℕ
  pub additional_validation_tasks : ℕ

-- What the builder sets at reth's builder of the validator.
pub record ValidatorSettings (K L : Type 0) : Type 0 where
  pub head_timestamp : ℕ
  pub eip4844 : Bool
  pub kzg_settings : K
  pub max_tx_input_bytes : ℕ
  pub local_transactions_config : L
  pub tx_fee_cap : ℕ
  pub max_tx_gas_limit : Option ℕ
  pub minimum_priority_fee : Option ℕ
  pub additional_tasks : ℕ

-- What is called of the context, the clock and reth. `now` is the time since the epoch in seconds;
-- the last two spawn the tasks of the source, which run beside the rest from then on.
pub record PoolCalls (W K L Store Validator Pool : Type 0) : Type 0 where
  pub pool_config : PoolConfig L
  pub chain_spec : LoadChainSpec
  pub head_timestamp : ℕ
  pub config : ValidatorConfig
  pub now : W → Result String ℕ
  pub create_blob_store : Option ℕ → Action W Store
  pub kzg_settings : W → Result String K
  pub build_with_tasks : ValidatorSettings K L → Store → W → Validator × W
  pub validates_eip4844 : Validator → Bool
  pub build_and_spawn_maintenance_task : Validator → Store → PoolConfig L → Action W Pool
  pub spawn_kzg_initialization : Validator → W → W
  pub spawn_watch : Pool → W → W

module _ {W K L Store Validator Pool : Type 0} (c : PoolCalls W K L Store Validator Pool) where
  -- The settings of `eth_builder`.
  unfoldable pub validator_settings : K → L → ValidatorSettings K L
  validator_settings kzg local = record {
    head_timestamp = c.head_timestamp;
    eip4844 = true;
    kzg_settings = kzg;
    max_tx_input_bytes = c.config.max_tx_input_bytes;
    local_transactions_config = local;
    tx_fee_cap = c.config.rpc_tx_fee_cap;
    max_tx_gas_limit = c.config.max_tx_gas_limit;
    minimum_priority_fee = c.config.minimum_priority_fee;
    additional_tasks = c.config.additional_validation_tasks;
  }

  -- `if validator.validator().eip4844()`
  unfoldable pub initialize_kzg : Validator → W → W
  initialize_kzg validator w = elim (c.validates_eip4844 validator) [
    | true ↦ c.spawn_kzg_initialization validator w
    | Bool.false ↦ w
  ]

  unfoldable pub build_pool : Upstream → ℕ → Action W Pool
  unfolding build_pool_config validator_settings initialize_kzg
  build_pool u epoch_slots = do
    current_timestamp ← reads c.now
    let pool_config = build_pool_config u c.chain_spec epoch_slots current_timestamp c.pool_config
    blob_store ← c.create_blob_store pool_config.blob_cache_size
    kzg ← reads c.kzg_settings
    validator ← always (
        c.build_with_tasks (validator_settings kzg pool_config.local_transactions_config)
          blob_store)
    always (λ w. (tt, initialize_kzg validator w))
    transaction_pool ← c.build_and_spawn_maintenance_task validator blob_store pool_config
    always (λ w. (transaction_pool, c.spawn_watch transaction_pool w))
