-- ===== src/Rpc/Types.antt =====
-- The wrapper `LoadEngineApi` of engine/rpc.rs: what it wraps, and its two guards.
use load_reth.Common.{
  ℕ, ◌-◌, Bool, Option, List, length, Result, ok, err, String, ltb, if◌then◌else◌,
}
use load_reth.Prevrandao.{B256, is_load_prev_randao}
use load_reth.Chain.Types.{LoadChainSpec, load_max_blob_count}
use load_reth.Payload.Attributes.{LoadPayloadAttributes}
use load_reth.Payload.Execution.{ExecutionPayloadV3, LoadExecutionData}
use load_reth.Validator.Defs.{
  EngineApiMessageVersion, EngineObjectValidationError, invalid_params, bad_prev_randao,
}
use load_reth.Rpc.Metrics.{LoadEngineRpcMetrics}

-- `upstream` stands for the errors that only reth's own engine returns.
pub data EngineApiError : Type 0 where
  blob_request_too_large : (len : ℕ) → EngineApiError
  engine_object_validation_error : EngineObjectValidationError → EngineApiError
  internal : String → EngineApiError
  upstream : String → EngineApiError

-- reth's types that the wrapper only passes on.
pub record Answers : Type 1 where
  pub PayloadStatus : Type 0
  pub ForkchoiceState : Type 0
  pub ForkchoiceUpdated : Type 0
  pub Envelope : EngineApiMessageVersion → Type 0  -- of `getPayload`
  pub Bodies : Type 0
  pub BlobAndProofV1 : Type 0
  pub BlobAndProofV2 : Type 0
  pub ClientVersion : Type 0
  pub Capabilities : Type 0

-- The wrapped engine and the pool, on the state `W` of everything outside the wrapper. The methods
-- that differ by their number alone are one field, indexed by it. `now` reads the monotonic clock.
pub record Engine (W S : Type 0) (T : Answers) : Type 0 where
  pub now : W → ℕ
  pub unix_seconds : W → ℕ
  pub is_syncing : W → Bool
  pub chain_spec : LoadChainSpec
  pub new_payload_metered :
      EngineApiMessageVersion → LoadExecutionData S → W → Result EngineApiError T.PayloadStatus × W
  pub fork_choice_updated_metered :
      EngineApiMessageVersion
      → T.ForkchoiceState
      → Option LoadPayloadAttributes
      → W
      → Result EngineApiError T.ForkchoiceUpdated × W
  pub get_payload_metered :
      (v : EngineApiMessageVersion) → ℕ → W → Result EngineApiError (T.Envelope v) × W
  pub get_payload_bodies_by_hash_metered : List B256 → W → Result EngineApiError T.Bodies × W
  pub get_payload_bodies_by_range_metered : ℕ → ℕ → W → Result EngineApiError T.Bodies × W
  pub get_client_version : T.ClientVersion → Result EngineApiError (List T.ClientVersion)
  pub capabilities : T.Capabilities
  pub add_capability : T.Capabilities → String → T.Capabilities
  pub list : T.Capabilities → List String
  pub get_blobs_v1_of_pool : W → List B256 → Result String (List (Option T.BlobAndProofV1))
  pub get_blobs_v2_of_pool : W → List B256 → Result String (Option (List T.BlobAndProofV2))
  pub get_blobs_v3_of_pool : W → List B256 → Result String (List (Option T.BlobAndProofV2))

-- What a handler may change: the metrics, and the state outside.
pub record Server (W : Type 0) : Type 0 where
  pub metrics : LoadEngineRpcMetrics
  pub world : W

abbrev pub Handler : Type 0 → Type 0 → Type 0
Handler W A = Server W → Result EngineApiError A × Server W

unfoldable pub validate_blob_request : List B256 → Result EngineApiError (Unit {0})
validate_blob_request versioned_hashes =
    if ltb load_max_blob_count (length versioned_hashes)
    then err (blob_request_too_large (length versioned_hashes))
    else ok tt

unfoldable pub ensure_load_prev_randao : B256 → Result EngineApiError (Unit {0})
ensure_load_prev_randao prev_randao =
    if is_load_prev_randao prev_randao
    then ok tt
    else err (engine_object_validation_error (invalid_params bad_prev_randao))

unfoldable pub payload_v3_prev_randao : ExecutionPayloadV3 → B256
payload_v3_prev_randao payload = payload.payload_inner.payload_inner.prev_randao

-- `if let Err(err) = ... { return Err(err.into()) }`
abbrev pub guarded : {W A : Type 0} → Result EngineApiError (Unit {0}) → Handler W A → Handler W A
guarded (err e) rest s = (err e, s)
guarded (ok _) rest s = rest s

-- What follows a wrapped call that ended in `w`, `elapsed` later: the sample, unless it failed.
abbrev pub finish :
    {W A : Type 0}
    → (LoadEngineRpcMetrics → ℕ → LoadEngineRpcMetrics)
    → Server W
    → ℕ
    → W
    → Result EngineApiError A
    → Result EngineApiError A × Server W
finish sample s elapsed w (ok a) = (ok a, record { metrics = sample s.metrics elapsed; world = w })
finish sample s elapsed w (err e) = (err e, record s { world = w })

-- `Instant::now()`, the wrapped call with `?`, and the sample of the time that it took.
abbrev pub timed :
    {W A : Type 0}
    → (W → ℕ)
    → (LoadEngineRpcMetrics → ℕ → LoadEngineRpcMetrics)
    → (W → Result EngineApiError A × W)
    → Handler W A
timed now sample call s =
    finish sample s (now (call s.world).1 - now s.world) (call s.world).1 (call s.world).0
