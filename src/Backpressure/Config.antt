-- ===== src/Backpressure/Config.antt =====
-- The configuration and the guarded methods of rpc/backpressure.rs.
use load_reth.Common.{
  ℕ, ◌*◌, Option, none, some, String, ltb, if◌then◌else◌, then_some, saturating_mul,
}
use text.Mathlib.Text.{◌==◌ as str_eq}

pub data GuardedMethod : Type 0 where
  send_raw_transaction get_transaction_count send_raw_transaction_sync : GuardedMethod

pub record LoadRpcBackpressureConfig : Type 0 where
  pub send_raw_transaction_limit : ℕ
  pub get_transaction_count_limit : ℕ
  pub send_raw_transaction_sync_limit : ℕ
  pub batch_response_limit_bytes : ℕ

abbrev pub default_batch_response_limit_mb : ℕ
default_batch_response_limit_mb = 200

-- `Default::default`
unfoldable pub default_config : LoadRpcBackpressureConfig
default_config = record {
  send_raw_transaction_limit = 1024;
  get_transaction_count_limit = 2048;
  send_raw_transaction_sync_limit = 256;
  batch_response_limit_bytes = default_batch_response_limit_mb * 1024 * 1024;
}

-- What `std::env::var` gives.
pub data EnvVar : Type 0 where
  present : String → EnvVar
  not_present : EnvVar
  not_unicode : EnvVar

-- `parse` is `str::parse::<usize>`. The warnings are left out.
module _ (var : String → EnvVar) (parse : String → Option ℕ) where
  unfoldable pub limit_or : ℕ → EnvVar → ℕ
  limit_or default (present value) = elim (parse value) [ none ↦ default | some parsed ↦ parsed ]
  limit_or default not_present = default
  limit_or default not_unicode = default

  unfoldable pub parse_env_limit : String → ℕ → ℕ
  parse_env_limit name default = limit_or default (var name)

  unfoldable pub parse_env_mb_as_bytes : String → ℕ → ℕ
  parse_env_mb_as_bytes name default_mb =
      saturating_mul (parse_env_limit name default_mb) (1024 * 1024)

  unfoldable pub from_env : LoadRpcBackpressureConfig
  unfolding default_config
  from_env = record {
    send_raw_transaction_limit =
        parse_env_limit "LOAD_RETH_RPC_SEND_RAW_TX_LIMIT" default_config.send_raw_transaction_limit;
    get_transaction_count_limit =
        parse_env_limit "LOAD_RETH_RPC_GET_TRANSACTION_COUNT_LIMIT"
          default_config.get_transaction_count_limit;
    send_raw_transaction_sync_limit =
        parse_env_limit "LOAD_RETH_RPC_SEND_RAW_TX_SYNC_LIMIT"
          default_config.send_raw_transaction_sync_limit;
    batch_response_limit_bytes =
        parse_env_mb_as_bytes "LOAD_RETH_RPC_BATCH_RESPONSE_LIMIT_MB"
          default_batch_response_limit_mb;
  }

unfoldable pub from_rpc_method : String → Option GuardedMethod
from_rpc_method name =
    if str_eq name "eth_sendRawTransaction"
    then some send_raw_transaction
    else (if str_eq name "eth_getTransactionCount"
        then some get_transaction_count
        else (if str_eq name "eth_sendRawTransactionSync"
            then some send_raw_transaction_sync
            else none))

unfoldable pub rpc_method_name : GuardedMethod → String
rpc_method_name send_raw_transaction = "eth_sendRawTransaction"
rpc_method_name get_transaction_count = "eth_getTransactionCount"
rpc_method_name send_raw_transaction_sync = "eth_sendRawTransactionSync"

unfoldable pub limit_for : LoadRpcBackpressureConfig → GuardedMethod → ℕ
limit_for config send_raw_transaction = config.send_raw_transaction_limit
limit_for config get_transaction_count = config.get_transaction_count_limit
limit_for config send_raw_transaction_sync = config.send_raw_transaction_sync_limit

-- The `?` on `from_rpc_method`, and the test that the limit is not zero.
unfoldable pub enabled : LoadRpcBackpressureConfig → Option GuardedMethod → Option GuardedMethod
enabled config none = none
enabled config (some method) = then_some (ltb 0 (limit_for config method)) method

unfoldable pub classify_method : LoadRpcBackpressureConfig → String → Option GuardedMethod
classify_method config name = enabled config (from_rpc_method name)
