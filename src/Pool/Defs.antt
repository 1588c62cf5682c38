-- ===== src/Pool/Defs.antt =====
-- `LoadPoolBuilder::build_pool` of pool/mod.rs: the sizes that it computes for the pool.
use load_reth.Common.{ℕ, ◌/◌, ◌%◌, ◌^◌, max, Option, some, unwrap_or, add64, sub64, saturating_mul}
use load_reth.Chain.Types.{LoadChainSpec, Upstream, load_max_blobs_per_tx, load_target_blob_count}

pub record SubPoolLimit : Type 0 where
  pub max_txs : ℕ
  pub max_size : ℕ

-- The settings of reth's `PoolConfig` that the builder reads or writes; `L` is the one of local
-- transactions, which it hands on.
pub record PoolConfig (L : Type 0) : Type 0 where
  pub blob_cache_size : Option ℕ
  pub blob_limit : SubPoolLimit
  pub local_transactions_config : L

-- `EPOCH_SLOTS` of alloy is the parameter; the result is cast to 32 bits.
unfoldable pub calculated_blob_cache : ℕ → ℕ → ℕ
calculated_blob_cache epoch_slots target_blob_count =
    saturating_mul (saturating_mul target_blob_count epoch_slots) 2 % 2 ^ 32

unfoldable pub min_blob_txs : ℕ → ℕ
min_blob_txs blob_cache_size =
    max (saturating_mul blob_cache_size 4 / load_max_blobs_per_tx) load_target_blob_count

-- How many default limits the target takes.
unfoldable pub scale_of : ℕ → ℕ → ℕ
scale_of target_blob_txs max_txs = sub64 (add64 target_blob_txs max_txs) 1 / max max_txs 1

unfoldable pub scaled_limit : SubPoolLimit → ℕ → SubPoolLimit
unfolding min_blob_txs scale_of
scaled_limit default_blob_limit blob_cache_size =
    let target_blob_txs = max default_blob_limit.max_txs (min_blob_txs blob_cache_size) in
    record {
      max_txs = target_blob_txs;
      max_size =
          saturating_mul default_blob_limit.max_size
            (scale_of target_blob_txs default_blob_limit.max_txs);
    }

-- The changes to the configuration, at the current time.
unfoldable pub build_pool_config :
    {L : Type 0} → Upstream → LoadChainSpec → ℕ → ℕ → PoolConfig L → PoolConfig L
unfolding calculated_blob_cache scaled_limit
build_pool_config u spec epoch_slots current_timestamp pool_config =
    let blob_params =
      unwrap_or (u.blob_params_at_timestamp spec.inner current_timestamp) u.cancun_params in
    let blob_cache_size =
      unwrap_or pool_config.blob_cache_size
        (calculated_blob_cache epoch_slots blob_params.target_blob_count) in
    record pool_config {
      blob_cache_size = some blob_cache_size;
      blob_limit = scaled_limit pool_config.blob_limit blob_cache_size;
    }
