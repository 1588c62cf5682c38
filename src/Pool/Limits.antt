-- ===== src/Pool/Limits.antt =====
-- The pool's limits: the room for transactions, and the memory for each.
use load_reth.Common.{
  ℕ, ◌+◌, ◌-◌, ◌*◌, ◌/◌, ◌%◌, ◌≤◌, ◌<◌, ◌≡◌, refl, ap, ap₂, ◌⊎◌, inl, inr, max, false, none, some,
  ok, arith, u64_mod, saturating_mul,
}
use native.Mathlib.Nat.{div-add-mod, mod-lt, mul-le-mul_left, mul_assoc, mul_comm}
use native.Mathlib.Decide.{dec_lt}
use load_reth.Chain.Types.{
  Genesis, LoadChainSpec, Upstream, UpstreamLaws, active_from, load_target_blob_count,
}
use load_reth.Chain.Genesis.{}
use load_reth.Chain.Spec.{from_genesis, load_blob_params}
use load_reth.Chain.Blobs.{from_genesis-IsLoadSpec}
use load_reth.Pool.Defs.{
  SubPoolLimit, PoolConfig, calculated_blob_cache, min_blob_txs, scale_of, scaled_limit,
  build_pool_config,
}

-- The scale is the quotient rounded up.
scale_of_lem :
    (target m : ℕ)
    → 0 < m
    → m ≤ target
    → target + m < u64_mod
    → (target ≤ m * scale_of target m) × (m * scale_of target m < target + m)
unfolding scale_of
scale_of_lem target m pos le small =
    (omega (arith, parts, mod-lt (target + m - 1) pos), omega (arith, parts))
  where
    shape : scale_of target m ≡ (target + m - 1) / m
    shape = ap₂ ◌/◌ (omega arith) (omega arith)

    parts : m * scale_of target m + (target + m - 1) % m ≡ target + m - 1
    parts = rw shape (div-add-mod (target + m - 1) m)

-- The memory of the scaled limit per transaction, at the pool's default `d`: the largest `u64`
-- where the product does not fit, and otherwise that of the default, and less than one default limit more in all.
abbrev pub KeepsMemory : SubPoolLimit → SubPoolLimit → Type 0
KeepsMemory d r =
    (r.max_size ≡ u64_mod - 1)
    ⊎ ((d.max_size * r.max_txs ≤ r.max_size * d.max_txs)
        × (r.max_size * d.max_txs ≤ d.max_size * (r.max_txs + d.max_txs)))

scaled_memory :
    (size target m s : ℕ)
    → target ≤ m * s
    → m * s < target + m
    → (saturating_mul size s ≡ u64_mod - 1)
      ⊎ ((size * target ≤ saturating_mul size s * m)
          × (saturating_mul size s * m ≤ size * (target + m)))
scaled_memory size target m s low high = elim (dec_lt (u64_mod - 1) (size * s)) [
  | yes over ↦ inl (omega arith)
  | no fits ↦
      let whole : saturating_mul size s ≡ size * s = omega arith in
      inr (
        rw whole (
          omega (
            arith,
            mul-le-mul_left size low,
            mul_assoc size s m,
            ap (λ k. size * k) (mul_comm s m),
          ),
          omega (arith, upper, mul_assoc size s m, ap (λ k. size * k) (mul_comm s m)),
        ))
]
  where
    upper : size * (m * s) ≤ size * (target + m)
    upper = mul-le-mul_left size (omega arith)

-- Whatever the cache size, if the default is not zero and the numbers do not overflow, the blob pool
-- admits at least its default number of transactions, at least 512, and at least four caches of blobs
-- at 32 a transaction. Its memory is scaled by the rounded-up quotient of the two numbers, so that a
-- transaction gets no less than by default, unless the product saturates.
pub scaled_limit_lem :
    (d : SubPoolLimit) (cache : ℕ)
    → 0 < d.max_txs
    → (scaled_limit d cache).max_txs + d.max_txs < u64_mod
    → (d.max_txs ≤ (scaled_limit d cache).max_txs)
      × (load_target_blob_count ≤ (scaled_limit d cache).max_txs)
      × (saturating_mul cache 4 < 32 * ((scaled_limit d cache).max_txs + 1))
      × KeepsMemory d (scaled_limit d cache)
unfolding scaled_limit min_blob_txs
scaled_limit_lem d cache pos small = (
  omega arith,
  omega arith,
  omega arith,
  scaled_memory d.max_size (max d.max_txs (min_blob_txs cache)) d.max_txs
      (scale_of (max d.max_txs (min_blob_txs cache)) d.max_txs) fits.0 fits.1,
)
  where
    fits :
        (max d.max_txs (min_blob_txs cache)
          ≤ d.max_txs * scale_of (max d.max_txs (min_blob_txs cache)) d.max_txs)
        × (d.max_txs * scale_of (max d.max_txs (min_blob_txs cache)) d.max_txs
            < max d.max_txs (min_blob_txs cache) + d.max_txs)
    fits = scale_of_lem (max d.max_txs (min_blob_txs cache)) d.max_txs pos (omega arith) small

-- On a specification that `from_genesis` has made, before the genesis's Osaka time and with
-- alloy's 32 slots an epoch, the pool without an operator's cache size caches 32768 blobs, and
-- admits the default number of blob transactions, 4096 at least.
pub build_pool_config_default :
    {L : Type 0} (u : Upstream) (g : Genesis) (spec : LoadChainSpec) (now : ℕ)
    (config : PoolConfig L)
    → UpstreamLaws u
    → from_genesis u g ≡ ok spec
    → active_from g.config.osaka_time now ≡ false
    → config.blob_cache_size ≡ none
    → ((build_pool_config u spec 32 now config).blob_cache_size ≡ some 32_768)
      × ((build_pool_config u spec 32 now config).blob_limit.max_txs
          ≡ max config.blob_limit.max_txs 4_096)
unfolding build_pool_config calculated_blob_cache scaled_limit min_blob_txs load_blob_params
build_pool_config_default u g spec now config laws made early unset =
    let params = (from_genesis-IsLoadSpec u g spec now laws made).params in
    rw (unset, params, early) (refl, refl)
