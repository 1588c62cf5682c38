-- ===== src/Evm/Tests.antt =====
-- An environment whose excess is above the block's blob gas.
use load_reth.Common.{ℕ, ◌≡◌, ◌⊎◌, ◌≤◌, ◌*◌, ◌+◌, true, false, min, none, some, [], ok, err, String}
use load_reth.Chain.Types.{LoadChainSpec, Hardfork, load_max_blob_count}
use load_reth.Chain.Blobs.{spec_of, from_genesis_ok}
use load_reth.Chain.Tests.{minimal, reth, reth_laws, minimal-IsLoadGenesis}
use load_reth.Payload.Execution.{LoadExecutionData, v1}
use load_reth.Payload.Tests.{Side, alloy}
use load_reth.Validator.Tests.{innermost}
use load_reth.Builder.Build.{Header, NextBlockEnv, compute_load_blob_cap}
use load_reth.Evm.Defs.{EvmEnv, BlobFees, EvmConfig, evm_env, next_evm_env, evm_env_for_payload}
use load_reth.Evm.Policy.{Follows, evm_envs-Follows}
use load_reth.Evm.Caps.{blob_caps_cases}

abbrev fees : BlobFees
fees = record {
  max_blob_gas_per_block = λ p. p.max_blob_count * 131_072;
  calc_blob_fee = λ p excess. excess + 1;
}

abbrev env : EvmEnv ℕ
env = record {
  max_blobs_per_tx = none;
  blob_base_fee_update_fraction = none;
  blob_excess_gas_and_price = some (record { excess_blob_gas = 999_999_999; blob_gasprice = 1 });
  rest = 5;
}

abbrev inner : EvmConfig Side ℕ String
inner = record {
  evm_env = λ header. ok env;
  next_evm_env = λ parent attributes. ok (record env { blob_excess_gas_and_price = none });
  evm_env_for_payload = λ payload. err "no environment";
}

abbrev spec : LoadChainSpec
spec = spec_of reth minimal

abbrev header : Header
header = record { hash = []; number = 5; timestamp = 12; gas_limit = 30 }

abbrev attributes : NextBlockEnv
attributes = record {
  timestamp = 14;
  suggested_fee_recipient = [];
  prev_randao = [];
  gas_limit = 30;
  parent_beacon_block_root = none;
  withdrawals = none;
  extra_data = [];
}

abbrev payload : LoadExecutionData Side
payload = record { inner = record { payload = v1 innermost; sidecar = none } }

evm_envs-Follows_example :
    Follows reth fees spec 12 (ok env) (evm_env reth fees spec inner alloy header)
    × Follows reth fees spec 14
        (inner.next_evm_env header attributes)
        (next_evm_env reth fees spec inner alloy header attributes)
    × Follows reth fees spec 12
        (inner.evm_env_for_payload payload)
        (evm_env_for_payload reth fees spec inner alloy payload)
evm_envs-Follows_example =
    evm_envs-Follows reth fees spec inner alloy header header attributes payload

-- After Osaka, which is at 1000 here.
blob_caps_cases_example :
    (compute_load_blob_cap reth spec 2_000 ≤ load_max_blob_count)
    × (((spec.inner.active Hardfork.osaka 2_000 ≡ false)
          × (compute_load_blob_cap reth spec 2_000 ≡ load_max_blob_count))
        ⊎ ((spec.inner.active Hardfork.osaka 2_000 ≡ true)
            × (compute_load_blob_cap reth spec 2_000
                ≡ min reth.osaka_params.max_blob_count load_max_blob_count)))
blob_caps_cases_example =
    blob_caps_cases reth minimal spec 2_000 reth_laws
      (from_genesis_ok reth minimal minimal-IsLoadGenesis)
