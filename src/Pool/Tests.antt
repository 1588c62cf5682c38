-- ===== src/Pool/Tests.antt =====
-- The limits on reth's default sub-pool of 10000 transactions and 20 MB, and on a small one.
use load_reth.Common.{
  ℕ, Bool, List, [], ◌∷◌, String, Option, ok, ◌+◌, ◌*◌, ◌≡◌, refl, ◌≤◌, ◌<◌, none, arith,
  saturating_mul,
}
use load_reth.Chain.Types.{load_target_blob_count}
use load_reth.Chain.Blobs.{spec_of}
use load_reth.Chain.Tests.{minimal, reth}
use load_reth.Pool.Defs.{SubPoolLimit, PoolConfig, scaled_limit, scale_of, min_blob_txs}
use load_reth.Pool.Action.{◌>>=◌}
use load_reth.Pool.Build.{PoolCalls, validator_settings, initialize_kzg, build_pool}
use load_reth.Pool.Built.{IsAssembled, build_pool-IsAssembled}
use load_reth.Pool.Limits.{KeepsMemory, scaled_limit_lem}

abbrev small : SubPoolLimit
small = record { max_txs = 1_000; max_size = 20_971_520 }

-- The limit of 4096 transactions takes five times the memory.
scaled_small : scaled_limit small 32_768 ≡ record { max_txs = 4_096; max_size = 104_857_600 }
unfolding scaled_limit min_blob_txs scale_of
scaled_small = refl

scaled_limit_lem_example :
    (1_000 ≤ (scaled_limit small 32_768).max_txs)
    × (load_target_blob_count ≤ (scaled_limit small 32_768).max_txs)
    × (saturating_mul 32_768 4 < 32 * ((scaled_limit small 32_768).max_txs + 1))
    × KeepsMemory small (scaled_limit small 32_768)
unfolding scaled_limit min_blob_txs
scaled_limit_lem_example = scaled_limit_lem small 32_768 (omega arith) (omega arith)

abbrev config : PoolConfig ℕ
config = record {
  blob_cache_size = none;
  blob_limit = record { max_txs = 10_000; max_size = 20_971_520 };
  local_transactions_config = 0;
}

-- A node whose state is the log of what was started, with names for the store, the validator and the
-- pool.
abbrev calls : PoolCalls (List String) Unit ℕ (Option ℕ) Bool String
calls = record {
  pool_config = config;
  chain_spec = spec_of reth minimal;
  head_timestamp = 12;
  config = record {
    max_tx_input_bytes = 131_072;
    rpc_tx_fee_cap = 1;
    max_tx_gas_limit = none;
    minimum_priority_fee = none;
    additional_validation_tasks = 1;
  };
  now = λ log. ok 12;
  create_blob_store = λ size log. (ok size, "store" ∷ log);
  kzg_settings = λ log. ok tt;
  build_with_tasks = λ settings store log. (settings.eip4844, "validation" ∷ log);
  validates_eip4844 = λ validator. validator;
  build_and_spawn_maintenance_task = λ validator store config log. (ok "pool", "maintenance" ∷ log);
  spawn_kzg_initialization = λ validator log. "kzg" ∷ log;
  spawn_watch = λ pool log. "watch" ∷ log;
}

assembled :
    build_pool calls reth 32 []
    ≡ (ok "pool", "watch" ∷ "maintenance" ∷ "kzg" ∷ "validation" ∷ "store" ∷ [])
unfolding build_pool ◌>>=◌ validator_settings initialize_kzg
assembled = refl

build_pool-IsAssembled_example :
    IsAssembled calls [] ("watch" ∷ "maintenance" ∷ "kzg" ∷ "validation" ∷ "store" ∷ []) "pool"
build_pool-IsAssembled_example = build_pool-IsAssembled calls reth 32 [] _ "pool" assembled
