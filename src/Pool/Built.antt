-- ===== src/Pool/Built.antt =====
-- What the pool that `build_pool` returns was made with.
use load_reth.Common.{ℕ, ◌≡◌, refl, ◌≤◌, ◌<◌, ◌+◌, ◌*◌, some, ok, arith, saturating_mul}
use load_reth.Chain.Types.{LoadChainSpec, Upstream, load_target_blob_count}
use load_reth.Pool.Defs.{PoolConfig, build_pool_config, scaled_limit, min_blob_txs}
use load_reth.Pool.Action.{always, reads, action-eq-ok}
use load_reth.Pool.Build.{PoolCalls, validator_settings, initialize_kzg, build_pool}

-- The sizes in the configuration, of which `cache` is the cache's.
record IsSized {L : Type 0} (before after : PoolConfig L) (cache : ℕ) : Type 0 where
  pub same_cache : after.blob_cache_size ≡ some cache
  pub operators_cache : (size : ℕ) → before.blob_cache_size ≡ some size → cache ≡ size
  pub same_local : after.local_transactions_config ≡ before.local_transactions_config
  pub room_by_default : before.blob_limit.max_txs ≤ after.blob_limit.max_txs
  pub room_for_target : load_target_blob_count ≤ after.blob_limit.max_txs
  pub room_for_caches : saturating_mul cache 4 < 32 * (after.blob_limit.max_txs + 1)

build_pool_config-IsSized :
    {L : Type 0} (u : Upstream) (spec : LoadChainSpec) (epoch_slots now : ℕ) (config : PoolConfig L)
    → (cache : ℕ) × IsSized config (build_pool_config u spec epoch_slots now config) cache
unfolding build_pool_config scaled_limit min_blob_txs
build_pool_config-IsSized u spec epoch_slots now config = (
  _,
  record {
    same_cache = refl;
    operators_cache = λ size e. rw e refl;
    same_local = refl;
    room_by_default = omega arith;
    room_for_target = omega arith;
    room_for_caches = omega arith;
  },
)

module _ {W K L Store Validator Pool : Type 0} (c : PoolCalls W K L Store Validator Pool) where
  -- How a pool comes about between two states of the node: the store, opened with the cache's size,
  -- is the validator's and the pool's; the pool's configuration has that size and room for enough
  -- blob transactions; the watching task is the last thing started.
  pub record IsAssembled (w w' : W) (pool : Pool) : Type 0 where
    pub store : Store
    pub kzg : K
    pub validator : Validator
    pub config : PoolConfig L
    pub cache : ℕ
    pub opened : W
    pub with_validator : W
    pub with_pool : W
    pub same_cache : config.blob_cache_size ≡ some cache
    pub operators_cache : (size : ℕ) → c.pool_config.blob_cache_size ≡ some size → cache ≡ size
    pub store_opened : c.create_blob_store (some cache) w ≡ (ok store, opened)
    pub kzg_read : c.kzg_settings opened ≡ ok kzg
    pub validator_made :
        c.build_with_tasks
          (validator_settings c kzg c.pool_config.local_transactions_config)
          store
          opened
        ≡ (validator, with_validator)
    pub pool_made :
        c.build_and_spawn_maintenance_task validator store config
          (initialize_kzg c validator with_validator)
        ≡ (ok pool, with_pool)
    pub room_by_default : c.pool_config.blob_limit.max_txs ≤ config.blob_limit.max_txs
    pub room_for_target : load_target_blob_count ≤ config.blob_limit.max_txs
    pub room_for_caches : saturating_mul cache 4 < 32 * (config.blob_limit.max_txs + 1)
    pub watched : c.spawn_watch pool with_pool ≡ w'

  assembled :
      (u : Upstream) (epoch_slots now : ℕ) {w w₀ w₁ w₂ w₃ w₄ w₅ w' : W} {store : Store} {kzg : K}
      {validator : Validator} {made pool : Pool}
      → reads c.now w ≡ (ok now, w₀)
      → c.create_blob_store
          (build_pool_config u c.chain_spec epoch_slots now c.pool_config).blob_cache_size
          w₀
        ≡ (ok store, w₁)
      → reads c.kzg_settings w₁ ≡ (ok kzg, w₂)
      → always
          (c.build_with_tasks
            (validator_settings c kzg c.pool_config.local_transactions_config)
            store)
          w₂
        ≡ (ok validator, w₃)
      → always (λ w. (tt, initialize_kzg c validator w)) w₃ ≡ (ok tt, w₄)
      → c.build_and_spawn_maintenance_task validator store
          (build_pool_config u c.chain_spec epoch_slots now c.pool_config)
          w₄
        ≡ (ok made, w₅)
      → always (λ w. (made, c.spawn_watch made w)) w₅ ≡ (ok pool, w')
      → IsAssembled w w' pool
  assembled u epoch_slots now {w₁ = w₁} {w₃ = w₃} {w₅ = w₅} {store = store} {kzg = kzg}
        {validator = validator} e₀ e₁ e₂ e₃ e₄ e₅ e₆ =
      let (cache, sized) = build_pool_config-IsSized u c.chain_spec epoch_slots now c.pool_config in
      record {
        store = store;
        kzg = kzg;
        validator = validator;
        config = build_pool_config u c.chain_spec epoch_slots now c.pool_config;
        cache = cache;
        opened = w₁;
        with_validator = w₃;
        with_pool = w₅;
        same_cache = sized.same_cache;
        operators_cache = sized.operators_cache;
        store_opened = cc (sized.same_cache);
        kzg_read = cc;
        validator_made = cc;
        pool_made = cc;
        room_by_default = sized.room_by_default;
        room_for_target = sized.room_for_target;
        room_for_caches = sized.room_for_caches;
        watched = cc;
      }

  -- Whatever the node's state, a pool that `build_pool` returns was made with the store that was
  -- opened at the size of the cache in the pool's configuration, which is the operator's if there is
  -- one; the validator accepts blob transactions' settings, and was given the same store and the
  -- local transactions' settings unchanged; the configuration admits at least the default number of
  -- blob transactions, 512, and four caches of blobs at 32 a transaction; and the cache is watched.
  pub build_pool-IsAssembled :
      (u : Upstream) (epoch_slots : ℕ) (w w' : W) (pool : Pool)
      → build_pool c u epoch_slots w ≡ (ok pool, w')
      → IsAssembled w w' pool
  unfolding build_pool
  build_pool-IsAssembled u epoch_slots w w' pool h =
      let (now, w₀, e₀, h₀) = action-eq-ok _ _ h in
      let (store, w₁, e₁, h₁) = action-eq-ok _ _ h₀ in
      let (kzg, w₂, e₂, h₂) = action-eq-ok _ _ h₁ in
      let (validator, w₃, e₃, h₃) = action-eq-ok _ _ h₂ in
      let (done, w₄, e₄, h₄) = action-eq-ok _ _ h₃ in
      let (made, w₅, e₅, h₅) = action-eq-ok _ _ h₄ in
      assembled u epoch_slots now e₀ e₁ e₂ e₃ e₄ e₅ h₅
