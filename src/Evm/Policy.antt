-- ===== src/Evm/Policy.antt =====
-- What the Load Network's environments have in common, whichever entry point makes them.
use load_reth.Common.{
  ℕ, ◌≡◌, refl, ap, ◌≤◌, Bool, true, false, Option, none, some, Result, ok, err, ◌>>=◌, arith, min,
  ◌%◌, u64_mod,
}
use load_reth.Chain.Types.{
  BlobParams, LoadChainSpec, Upstream, cancun, load_max_blobs_per_tx, load_blob_update_fraction,
}
use load_reth.Payload.Execution.{LoadExecutionData, Alloy}
use load_reth.Builder.Build.{Header, NextBlockEnv}
use load_reth.Evm.Defs.{
  BlobExcessGasAndPrice, EvmEnv, BlobFees, EvmConfig, load_blob_params_at, cap_excess,
  enforce_excess, enforce_load_blob_env, evm_env, next_evm_env, evm_env_for_payload,
}

module _ (u : Upstream) (fees : BlobFees) (spec : LoadChainSpec) where
  -- An excess within the block's blob gas, priced by the Load Network's parameters.
  abbrev pub IsPriced : ℕ → Option BlobExcessGasAndPrice → Type 0
  IsPriced t none = spec.inner.active cancun t ≡ false
  IsPriced t (some e) =
      (e.excess_blob_gas ≤ fees.max_blob_gas_per_block (load_blob_params_at u fees spec t))
      × (e.blob_gasprice ≡ fees.calc_blob_fee (load_blob_params_at u fees spec t) e.excess_blob_gas)

  abbrev pub excess_of : Option BlobExcessGasAndPrice → ℕ
  excess_of none = 0
  excess_of (some e) = e.excess_blob_gas

  -- `made` is the environment `env` of reth under the Load Network's rules.
  pub record IsLoadEnv {R : Type 0} (t : ℕ) (env made : EvmEnv R) : Type 0 where
    pub per_tx : made.max_blobs_per_tx ≡ some load_max_blobs_per_tx
    pub fraction : made.blob_base_fee_update_fraction ≡ some load_blob_update_fraction
    pub priced : IsPriced t made.blob_excess_gas_and_price
    pub excess :
        excess_of made.blob_excess_gas_and_price
        ≡ min
            (excess_of env.blob_excess_gas_and_price)
            (fees.max_blob_gas_per_block (load_blob_params_at u fees spec t))
    pub kept : made.rest ≡ env.rest

  enforce_excess-IsPriced :
      (t : ℕ) (active : Bool) (o : Option BlobExcessGasAndPrice)
      → spec.inner.active cancun t ≡ active
      → IsPriced t (enforce_excess u fees spec (load_blob_params_at u fees spec t) active o)
  unfolding enforce_excess cap_excess
  enforce_excess-IsPriced t active (some e) h = (ground arith, refl)
  enforce_excess-IsPriced t true none h = (omega arith, refl)
  enforce_excess-IsPriced t false none h = h

  excess_of-enforce_excess :
      (params : BlobParams) (active : Bool) (o : Option BlobExcessGasAndPrice)
      → excess_of (enforce_excess u fees spec params active o)
        ≡ min (excess_of o) (fees.max_blob_gas_per_block params)
  unfolding enforce_excess cap_excess
  excess_of-enforce_excess params active (some e) = ground arith
  excess_of-enforce_excess params true none = ground arith
  excess_of-enforce_excess params false none = ground arith

  enforce-IsLoadEnv :
      {R : Type 0} (t : ℕ) (env : EvmEnv R)
      → IsLoadEnv t env (enforce_load_blob_env u fees spec t env)
  unfolding enforce_load_blob_env load_blob_params_at
  enforce-IsLoadEnv t env = record {
    per_tx = refl;
    fraction = refl;
    priced = enforce_excess-IsPriced t _ env.blob_excess_gas_and_price refl;
    excess = excess_of-enforce_excess _ _ env.blob_excess_gas_and_price;
    kept = refl;
  }

  -- The result is `made` of reth's: its error, or its environment under the Load Network's rules.
  abbrev pub Follows : {R E : Type 0} → ℕ → Result E (EvmEnv R) → Result E (EvmEnv R) → Type 0
  Follows t (ok env) (ok made) = IsLoadEnv t env made
  Follows t (err e) (err e') = e ≡ e'
  Follows t _ _ = ⊥

  enforced-Follows :
      {R E : Type 0} (t : ℕ) (r : Result E (EvmEnv R))
      → Follows t r (r >>= λ env. ok (enforce_load_blob_env u fees spec t env))
  enforced-Follows t (ok env) = enforce-IsLoadEnv t env
  enforced-Follows t (err e) = refl

  module _ {S R E : Type 0} (inner : EvmConfig S R E) (a : Alloy S) where
    -- The three entry points fail exactly as reth's do. Where they succeed, the environment has the
    -- Load Network's limit of blobs per transaction and update fraction; its excess is reth's, at
    -- most the block's blob gas, and its price is the fee at that excess; it is without an excess
    -- only where Cancun is inactive; and everything else is reth's.
    pub evm_envs-Follows :
        (header : Header) (parent : Header) (attributes : NextBlockEnv)
        (payload : LoadExecutionData S)
        → Follows header.timestamp (inner.evm_env header) (evm_env u fees spec inner a header)
          × Follows attributes.timestamp
              (inner.next_evm_env parent attributes)
              (next_evm_env u fees spec inner a parent attributes)
          × Follows
              (a.timestamp payload.inner.payload)
              (inner.evm_env_for_payload payload)
              (evm_env_for_payload u fees spec inner a payload)
    unfolding evm_env next_evm_env evm_env_for_payload
    evm_envs-Follows header parent attributes payload = (
      enforced-Follows _ (inner.evm_env header),
      enforced-Follows _ (inner.next_evm_env parent attributes),
      enforced-Follows _ (inner.evm_env_for_payload payload),
    )

  capped_again :
      (params : BlobParams) (active : Bool) (o : Option BlobExcessGasAndPrice)
      → enforce_excess u fees spec params active (enforce_excess u fees spec params active o)
        ≡ enforce_excess u fees spec params active o
  unfolding enforce_excess cap_excess
  capped_again params active (some e) = ground arith
  capped_again params true none = ground arith
  capped_again params false none = refl

  -- Enforcing the rules a second time at the same timestamp changes nothing.
  pub enforce_load_blob_env_idem :
      {R : Type 0} (t : ℕ) (env : EvmEnv R)
      → enforce_load_blob_env u fees spec t (enforce_load_blob_env u fees spec t env)
        ≡ enforce_load_blob_env u fees spec t env
  unfolding enforce_load_blob_env
  enforce_load_blob_env_idem t env =
      ap
        (λ o. record env {
          max_blobs_per_tx = some (load_blob_params_at u fees spec t).max_blobs_per_tx;
          blob_base_fee_update_fraction = some (load_blob_update_fraction % u64_mod);
          blob_excess_gas_and_price = o;
        })
        (capped_again _ _ env.blob_excess_gas_and_price)
