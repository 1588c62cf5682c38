-- ===== src/Rpc/Payloads.antt =====
-- The handlers of newPayload, forkchoiceUpdated and getPayload in engine/rpc.rs.
use load_reth.Common.{ℕ, Option, none, some, List, Result, ok}
use load_reth.Prevrandao.{B256}
use load_reth.Payload.Attributes.{LoadPayloadAttributes}
use load_reth.Payload.Execution.{
  ExecutionPayloadV1, ExecutionPayload, ExecutionPayloadV3, RequestsOrHash, Alloy, of_v1,
  of_input_v2, data_v3, data_v4,
}
use load_reth.Validator.Defs.{version_1, version_2, version_3, version_4, version_5}
use load_reth.Rpc.Metrics.{record_forkchoice, record_get_payload, record_new_payload}
use load_reth.Rpc.Types.{
  EngineApiError, Answers, Engine, Handler, validate_blob_request, ensure_load_prev_randao,
  payload_v3_prev_randao, guarded, timed,
}

module _ {W S : Type 0} {T : Answers} (e : Engine W S T) (a : Alloy S) where
  unfoldable pub new_payload_v1 : ExecutionPayloadV1 → Handler W T.PayloadStatus
  new_payload_v1 payload =
      timed e.now record_new_payload (e.new_payload_metered version_1 (of_v1 a payload))

  unfoldable pub new_payload_v2 : ExecutionPayload → Handler W T.PayloadStatus
  new_payload_v2 payload =
      timed e.now record_new_payload (e.new_payload_metered version_2 (of_input_v2 a payload))

  unfoldable pub new_payload_v3 : ExecutionPayloadV3 → List B256 → B256 → Handler W T.PayloadStatus
  new_payload_v3 payload versioned_hashes root = guarded (validate_blob_request versioned_hashes) (
      guarded (ensure_load_prev_randao (payload_v3_prev_randao payload)) (
        timed e.now record_new_payload
          (e.new_payload_metered version_3 (data_v3 a payload versioned_hashes root))))

  unfoldable pub new_payload_v4 :
      ExecutionPayloadV3 → List B256 → B256 → RequestsOrHash → Handler W T.PayloadStatus
  new_payload_v4 payload versioned_hashes root execution_requests =
      guarded (validate_blob_request versioned_hashes) (
        guarded (ensure_load_prev_randao (payload_v3_prev_randao payload)) (
          timed e.now record_new_payload (
            e.new_payload_metered version_4
              (data_v4 a payload versioned_hashes root execution_requests))))

  unfoldable pub fork_choice_updated_v1 :
      T.ForkchoiceState → Option LoadPayloadAttributes → Handler W T.ForkchoiceUpdated
  fork_choice_updated_v1 state attributes =
      timed e.now record_forkchoice (e.fork_choice_updated_metered version_1 state attributes)

  unfoldable pub fork_choice_updated_v2 :
      T.ForkchoiceState → Option LoadPayloadAttributes → Handler W T.ForkchoiceUpdated
  fork_choice_updated_v2 state attributes =
      timed e.now record_forkchoice (e.fork_choice_updated_metered version_2 state attributes)

  -- `if let Some(attrs) = &payload_attributes`
  unfoldable pub check_attributes : Option LoadPayloadAttributes → Result EngineApiError (Unit {0})
  check_attributes none = ok tt
  check_attributes (some attrs) = ensure_load_prev_randao attrs.inner.prev_randao

  unfoldable pub fork_choice_updated_v3 :
      T.ForkchoiceState → Option LoadPayloadAttributes → Handler W T.ForkchoiceUpdated
  fork_choice_updated_v3 state attributes =
      guarded (check_attributes attributes)
        (timed e.now record_forkchoice (e.fork_choice_updated_metered version_3 state attributes))

  unfoldable pub get_payload_v1 : ℕ → Handler W (T.Envelope version_1)
  get_payload_v1 id = timed e.now record_get_payload (e.get_payload_metered version_1 id)

  unfoldable pub get_payload_v2 : ℕ → Handler W (T.Envelope version_2)
  get_payload_v2 id = timed e.now record_get_payload (e.get_payload_metered version_2 id)

  unfoldable pub get_payload_v3 : ℕ → Handler W (T.Envelope version_3)
  get_payload_v3 id = timed e.now record_get_payload (e.get_payload_metered version_3 id)

  unfoldable pub get_payload_v4 : ℕ → Handler W (T.Envelope version_4)
  get_payload_v4 id = timed e.now record_get_payload (e.get_payload_metered version_4 id)

  unfoldable pub get_payload_v5 : ℕ → Handler W (T.Envelope version_5)
  get_payload_v5 id = timed e.now record_get_payload (e.get_payload_metered version_5 id)
