-- ===== src/Rpc/Refusals.antt =====
-- The two guards of the Engine API, the calls that they let through and the errors of the others.
use load_reth.Common.{
  ◌≡◌, refl, ◌≢◌, ◌⊎◌, inl, inr, ◌≤◌, ◌<◌, List, length, ok, err, arith, Bool-cases,
}
use native.Mathlib.Decide.{dec_lt}
use load_reth.Prevrandao.{B256, load_prevrandao, is_load_prev_randao, is_load_prev_randao_iff}
use load_reth.Chain.Types.{load_max_blob_count}
use load_reth.Payload.Execution.{ExecutionPayloadV3, RequestsOrHash, Alloy, data_v3, data_v4}
use load_reth.Validator.Defs.{version_3, version_4, invalid_params, bad_prev_randao}
use load_reth.Rpc.Metrics.{record_new_payload}
use load_reth.Rpc.Types.{
  EngineApiError, blob_request_too_large, engine_object_validation_error, Answers, Engine, Server,
  Handler, validate_blob_request, ensure_load_prev_randao, payload_v3_prev_randao, guarded, timed,
}
use load_reth.Rpc.Payloads.{new_payload_v3, new_payload_v4}

-- The two guards of newPayload, one after the other.
abbrev pub both : {W A : Type 0} → List B256 → B256 → Handler W A → Handler W A
both hashes b rest =
    guarded (validate_blob_request hashes) (guarded (ensure_load_prev_randao b) rest)

-- What the guards ask for.
abbrev pub Fits : List B256 → B256 → Type 0
Fits hashes b = (length hashes ≤ load_max_blob_count) × (b ≡ load_prevrandao)

-- The error of the guard that refuses first.
abbrev pub IsRefusal : List B256 → B256 → EngineApiError → Type 0
IsRefusal hashes b x =
    ((load_max_blob_count < length hashes) × (x ≡ blob_request_too_large (length hashes)))
    ⊎ ((length hashes ≤ load_max_blob_count)
        × (b ≢ load_prevrandao)
        × (x ≡ engine_object_validation_error (invalid_params bad_prev_randao)))

pub prev_randao_cases :
    (b : B256)
    → ((b ≡ load_prevrandao) × (ensure_load_prev_randao b ≡ ok tt))
      ⊎ ((b ≢ load_prevrandao)
          × (ensure_load_prev_randao b
              ≡ err (engine_object_validation_error (invalid_params bad_prev_randao))))
unfolding ensure_load_prev_randao
prev_randao_cases b = elim (Bool-cases (is_load_prev_randao b)) [
  | inl same ↦ inl ((is_load_prev_randao_iff b).0 same, rw same refl)
  | inr unlike ↦ inr (λ e. cc ((is_load_prev_randao_iff b).1 e), rw unlike refl)
]

request_cases :
    (hashes : List B256)
    → ((length hashes ≤ load_max_blob_count) × (validate_blob_request hashes ≡ ok tt))
      ⊎ ((load_max_blob_count < length hashes)
          × (validate_blob_request hashes ≡ err (blob_request_too_large (length hashes))))
unfolding validate_blob_request
request_cases hashes = elim (dec_lt load_max_blob_count (length hashes)) [
  | yes over ↦ inr (over, ground arith)
  | no few ↦ inl (omega arith, ground arith)
]

pub both_cases :
    {W A : Type 0} (hashes : List B256) (b : B256) (rest : Handler W A) (s : Server W)
    → (Fits hashes b × (both hashes b rest s ≡ rest s))
      ⊎ ((x : EngineApiError) × IsRefusal hashes b x × (both hashes b rest s ≡ (err x, s)))
both_cases hashes b rest s = elim (request_cases hashes) [
  | inr (over, failed) ↦ inr (_, inl (over, refl), rw failed refl)
  | inl (few, passed) ↦ elim (prev_randao_cases b) [
    | inl (e, fixed) ↦ inl ((few, e), rw (passed, fixed) refl)
    | inr (ne, failed) ↦ inr (_, inr (few, ne, refl), rw (passed, failed) refl)
  ]
]

pub refusal-not_Fits :
    (hashes : List B256) (b : B256) {x : EngineApiError} → IsRefusal hashes b x → ¬ Fits hashes b
refusal-not_Fits hashes b (inl (over, _)) (few, _) = omega arith
refusal-not_Fits hashes b (inr (_, ne, _)) (_, e) = ne e

passes :
    {W A : Type 0} (hashes : List B256) (b : B256) (rest : Handler W A) (s : Server W)
    → Fits hashes b
    → both hashes b rest s ≡ rest s
passes hashes b rest s fits = elim (both_cases hashes b rest s) [
  | inl (_, run) ↦ run
  | inr (x, why, _) ↦ absurd (refusal-not_Fits hashes b why fits)
]

-- What the guards of newPayloadV3 let through goes to the engine.
pub new_payload_v3_passes :
    {W S : Type 0} {T : Answers} (e : Engine W S T) (a : Alloy S) (p : ExecutionPayloadV3)
    (hashes : List B256) (root : B256)
    → Fits hashes (payload_v3_prev_randao p)
    → (s : Server W)
    → new_payload_v3 e a p hashes root s
      ≡ timed e.now record_new_payload (e.new_payload_metered version_3 (data_v3 a p hashes root)) s
unfolding new_payload_v3
new_payload_v3_passes e a p hashes root fits s = passes hashes (payload_v3_prev_randao p) _ s fits

-- What the guards of newPayloadV4 let through goes to the engine.
pub new_payload_v4_passes :
    {W S : Type 0} {T : Answers} (e : Engine W S T) (a : Alloy S) (p : ExecutionPayloadV3)
    (hashes : List B256) (root : B256) (reqs : RequestsOrHash)
    → Fits hashes (payload_v3_prev_randao p)
    → (s : Server W)
    → new_payload_v4 e a p hashes root reqs s
      ≡ timed e.now record_new_payload
          (e.new_payload_metered version_4 (data_v4 a p hashes root reqs))
          s
unfolding new_payload_v4
new_payload_v4_passes e a p hashes root reqs fits s =
    passes hashes (payload_v3_prev_randao p) _ s fits
