-- ===== src/Rpc/Metrics.antt =====
-- metrics.rs. A histogram is the list of its samples, the newest first; the conversions of a
-- duration or a size to a float are left out.
use load_reth.Common.{ℕ, Option, none, some, List, ◌∷◌, add64}

pub record LoadEngineRpcMetrics : Type 0 where
  pub forkchoice_latency : List ℕ
  pub get_payload_latency : List ℕ
  pub new_payload_latency : List ℕ
  pub get_blobs_requests : ℕ
  pub get_blobs_hits : ℕ
  pub get_blobs_misses : ℕ

unfoldable pub record_forkchoice : LoadEngineRpcMetrics → ℕ → LoadEngineRpcMetrics
record_forkchoice m duration = record m { forkchoice_latency = duration ∷ m.forkchoice_latency }

unfoldable pub record_get_payload : LoadEngineRpcMetrics → ℕ → LoadEngineRpcMetrics
record_get_payload m duration = record m { get_payload_latency = duration ∷ m.get_payload_latency }

unfoldable pub record_new_payload : LoadEngineRpcMetrics → ℕ → LoadEngineRpcMetrics
record_new_payload m duration = record m { new_payload_latency = duration ∷ m.new_payload_latency }

unfoldable pub record_get_blobs : LoadEngineRpcMetrics → ℕ → ℕ → LoadEngineRpcMetrics
record_get_blobs m hits misses = record m {
  get_blobs_requests = add64 m.get_blobs_requests 1;
  get_blobs_hits = add64 m.get_blobs_hits hits;
  get_blobs_misses = add64 m.get_blobs_misses misses;
}

pub record LoadBlobCacheMetrics : Type 0 where
  pub items : ℕ
  pub bytes : ℕ

-- `LoadBlobCacheMetrics::record`
unfoldable pub record_cache : LoadBlobCacheMetrics → ℕ → Option ℕ → LoadBlobCacheMetrics
record_cache m items none = record m { items = items }
record_cache m items (some size) = record m { items = items; bytes = size }
