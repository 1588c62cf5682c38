-- ===== src/Evm/Defs.antt =====
-- `LoadEvmConfig` of evm/mod.rs: the environments that it asks reth for, with the Load Network's
-- blob parameters written over them.
use load_reth.Common.{
  ℕ, ◌%◌, Bool, Option, none, some, Result, ok, ◌>>=◌, ltb, if◌then◌else◌, unwrap_or, u64_mod,
}
use load_reth.Chain.Types.{
  BlobParams, LoadChainSpec, Upstream, cancun, load_max_blob_count, load_target_blob_count,
  load_max_blobs_per_tx, load_blob_update_fraction,
}
use load_reth.Payload.Execution.{LoadExecutionData, Alloy}
use load_reth.Builder.Build.{Header, NextBlockEnv}

pub record BlobExcessGasAndPrice : Type 0 where
  pub excess_blob_gas : ℕ
  pub blob_gasprice : ℕ

-- What the program writes of an `EvmEnv`: two settings of its `cfg_env`, one of its `block_env`.
-- `R` is the rest.
pub record EvmEnv (R : Type 0) : Type 0 where
  pub max_blobs_per_tx : Option ℕ
  pub blob_base_fee_update_fraction : Option ℕ
  pub blob_excess_gas_and_price : Option BlobExcessGasAndPrice
  pub rest : R

-- alloy's arithmetic on blob parameters.
pub record BlobFees : Type 0 where
  pub max_blob_gas_per_block : BlobParams → ℕ
  pub calc_blob_fee : BlobParams → ℕ → ℕ

-- reth's own configuration, which `LoadEvmConfig` wraps.
pub record EvmConfig (S R E : Type 0) : Type 0 where
  pub evm_env : Header → Result E (EvmEnv R)
  pub next_evm_env : Header → NextBlockEnv → Result E (EvmEnv R)
  pub evm_env_for_payload : LoadExecutionData S → Result E (EvmEnv R)

module _ (u : Upstream) (fees : BlobFees) (spec : LoadChainSpec) where
  unfoldable pub load_blob_params_at : ℕ → BlobParams
  load_blob_params_at timestamp =
      let params = unwrap_or (u.blob_params_at_timestamp spec.inner timestamp) u.cancun_params in
      record params {
        target_blob_count = load_target_blob_count;
        max_blob_count = load_max_blob_count;
        max_blobs_per_tx = load_max_blobs_per_tx;
        update_fraction = load_blob_update_fraction;
      }

  -- The excess of an environment that has one, at most the block's blob gas, and its price.
  unfoldable pub cap_excess : BlobParams → BlobExcessGasAndPrice → BlobExcessGasAndPrice
  cap_excess params blob_env =
      let excess =
        if ltb (fees.max_blob_gas_per_block params) blob_env.excess_blob_gas
        then fees.max_blob_gas_per_block params
        else blob_env.excess_blob_gas in
      record { excess_blob_gas = excess; blob_gasprice = fees.calc_blob_fee params excess }

  -- The two branches on `blob_excess_gas_and_price`; the Boolean says whether Cancun is active.
  unfoldable pub enforce_excess :
      BlobParams → Bool → Option BlobExcessGasAndPrice → Option BlobExcessGasAndPrice
  enforce_excess params is_cancun (some blob_env) = some (cap_excess params blob_env)
  enforce_excess params is_cancun none =
      if is_cancun
      then some (record { excess_blob_gas = 0; blob_gasprice = fees.calc_blob_fee params 0 })
      else none

  unfoldable pub enforce_load_blob_env : {R : Type 0} → ℕ → EvmEnv R → EvmEnv R
  enforce_load_blob_env timestamp env =
      let params = load_blob_params_at timestamp in
      record env {
        max_blobs_per_tx = some params.max_blobs_per_tx;
        blob_base_fee_update_fraction = some (load_blob_update_fraction % u64_mod);
        blob_excess_gas_and_price =
            enforce_excess params (spec.inner.active cancun timestamp)
              env.blob_excess_gas_and_price;
      }

  module _ {S R E : Type 0} (inner : EvmConfig S R E) (a : Alloy S) where
    unfoldable pub evm_env : Header → Result E (EvmEnv R)
    evm_env header = do env ← inner.evm_env header; ok (enforce_load_blob_env header.timestamp env)

    unfoldable pub next_evm_env : Header → NextBlockEnv → Result E (EvmEnv R)
    next_evm_env parent attributes = do
      env ← inner.next_evm_env parent attributes
      ok (enforce_load_blob_env attributes.timestamp env)

    unfoldable pub evm_env_for_payload : LoadExecutionData S → Result E (EvmEnv R)
    evm_env_for_payload payload = do
      env ← inner.evm_env_for_payload payload
      ok (enforce_load_blob_env (a.timestamp payload.inner.payload) env)
