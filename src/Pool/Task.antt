-- ===== src/Pool/Task.antt =====
-- The task of pool/mod.rs that watches the blob cache.
use load_reth.Common.{ℕ, ◌%◌, Option, List, [], ◌∷◌, u64_mod}
use mathlib.Core.Option
use load_reth.Rpc.Metrics.{LoadBlobCacheMetrics, record_cache}

-- What the task reads of the store at a tick of its interval.
pub record Store : Type 0 where
  pub blobs_len : ℕ
  pub data_size_hint : Option ℕ

unfoldable pub watch_tick : LoadBlobCacheMetrics → Store → LoadBlobCacheMetrics
watch_tick metrics store =
    record_cache metrics store.blobs_len (Option.map (λ b. b % u64_mod) store.data_size_hint)

-- The rounds of the loop, each with the store that it finds.
unfoldable pub watch : LoadBlobCacheMetrics → List Store → LoadBlobCacheMetrics
watch metrics [] = metrics
watch metrics (store ∷ rest) = watch (watch_tick metrics store) rest
