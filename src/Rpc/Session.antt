-- ===== src/Rpc/Session.antt =====
-- A session of Engine API requests: the methods of `EngineApiServer` that engine/rpc.rs implements,
-- one call after the other, and what their answers say about the metrics.
use load_reth.Common.{ℕ, Option, List, [], ◌∷◌, Result, ok, err, String}
use load_reth.Prevrandao.{B256}
use load_reth.Payload.Attributes.{LoadPayloadAttributes}
use load_reth.Payload.Execution.{
  ExecutionPayloadV1, ExecutionPayload, ExecutionPayloadV3, RequestsOrHash, Alloy,
}
use load_reth.Validator.Defs.{
  EngineApiMessageVersion, version_1, version_2, version_3, version_4, version_5,
}
use load_reth.Rpc.Types.{EngineApiError, Answers, Engine, Server}
use load_reth.Rpc.Payloads.{
  new_payload_v1, new_payload_v2, new_payload_v3, new_payload_v4, fork_choice_updated_v1,
  fork_choice_updated_v2, fork_choice_updated_v3, get_payload_v1, get_payload_v2, get_payload_v3,
  get_payload_v4, get_payload_v5,
}
use load_reth.Rpc.Queries.{
  get_payload_bodies_by_hash_v1, get_payload_bodies_by_range_v1, get_client_version_v1,
  exchange_capabilities, get_blobs_v1, get_blobs_v2, get_blobs_v3,
}

-- A method with its arguments.
pub data Request (T : Answers) : Type 0 where
  engine_new_payload_v1 : ExecutionPayloadV1 → Request T
  engine_new_payload_v2 : ExecutionPayload → Request T
  engine_new_payload_v3 : ExecutionPayloadV3 → List B256 → B256 → Request T
  engine_new_payload_v4 : ExecutionPayloadV3 → List B256 → B256 → RequestsOrHash → Request T
  engine_fork_choice_updated_v1 : T.ForkchoiceState → Option LoadPayloadAttributes → Request T
  engine_fork_choice_updated_v2 : T.ForkchoiceState → Option LoadPayloadAttributes → Request T
  engine_fork_choice_updated_v3 : T.ForkchoiceState → Option LoadPayloadAttributes → Request T
  engine_get_payload_v1 : ℕ → Request T
  engine_get_payload_v2 : ℕ → Request T
  engine_get_payload_v3 : ℕ → Request T
  engine_get_payload_v4 : ℕ → Request T
  engine_get_payload_v5 : ℕ → Request T
  engine_get_payload_bodies_by_hash_v1 : List B256 → Request T
  engine_get_payload_bodies_by_range_v1 : ℕ → ℕ → Request T
  engine_get_client_version_v1 : T.ClientVersion → Request T
  engine_exchange_capabilities : List String → Request T
  engine_get_blobs_v1 : List B256 → Request T
  engine_get_blobs_v2 : List B256 → Request T
  engine_get_blobs_v3 : List B256 → Request T

pub data Answer (T : Answers) : Type 0 where
  status : T.PayloadStatus → Answer T
  updated : T.ForkchoiceUpdated → Answer T
  envelope : (v : EngineApiMessageVersion) → T.Envelope v → Answer T
  bodies : T.Bodies → Answer T
  versions : List T.ClientVersion → Answer T
  capabilities : List String → Answer T
  blobs_v1 : List (Option T.BlobAndProofV1) → Answer T
  blobs_v2 : Option (List T.BlobAndProofV2) → Answer T
  blobs_v3 : Option (List (Option T.BlobAndProofV2)) → Answer T

abbrev pub Outcome : Answers → Type 0
Outcome T = Result EngineApiError (Answer T)

abbrev pub answered :
    {W A : Type 0} {T : Answers}
    → (A → Answer T)
    → Result EngineApiError A × Server W
    → Outcome T × Server W
answered f (ok a, s) = (ok (f a), s)
answered f (err x, s) = (err x, s)

module _ {W S : Type 0} {T : Answers} (e : Engine W S T) (a : Alloy S) (entry : T.ClientVersion)
    (version : String) where
  unfoldable pub serve : Request T → Server W → Outcome T × Server W
  serve (engine_new_payload_v1 p) s = answered status (new_payload_v1 e a p s)
  serve (engine_new_payload_v2 p) s = answered status (new_payload_v2 e a p s)
  serve (engine_new_payload_v3 p hashes root) s =
      answered status (new_payload_v3 e a p hashes root s)
  serve (engine_new_payload_v4 p hashes root reqs) s =
      answered status (new_payload_v4 e a p hashes root reqs s)
  serve (engine_fork_choice_updated_v1 state attrs) s =
      answered updated (fork_choice_updated_v1 e a state attrs s)
  serve (engine_fork_choice_updated_v2 state attrs) s =
      answered updated (fork_choice_updated_v2 e a state attrs s)
  serve (engine_fork_choice_updated_v3 state attrs) s =
      answered updated (fork_choice_updated_v3 e a state attrs s)
  serve (engine_get_payload_v1 id) s = answered (envelope version_1) (get_payload_v1 e a id s)
  serve (engine_get_payload_v2 id) s = answered (envelope version_2) (get_payload_v2 e a id s)
  serve (engine_get_payload_v3 id) s = answered (envelope version_3) (get_payload_v3 e a id s)
  serve (engine_get_payload_v4 id) s = answered (envelope version_4) (get_payload_v4 e a id s)
  serve (engine_get_payload_v5 id) s = answered (envelope version_5) (get_payload_v5 e a id s)
  serve (engine_get_payload_bodies_by_hash_v1 hashes) s =
      answered bodies (get_payload_bodies_by_hash_v1 e hashes s)
  serve (engine_get_payload_bodies_by_range_v1 start count) s =
      answered bodies (get_payload_bodies_by_range_v1 e start count s)
  serve (engine_get_client_version_v1 client) s =
      answered versions (get_client_version_v1 e entry client, s)
  serve (engine_exchange_capabilities peer) s =
      (ok (capabilities (exchange_capabilities e version peer)), s)
  serve (engine_get_blobs_v1 hashes) s = answered blobs_v1 (get_blobs_v1 e hashes s)
  serve (engine_get_blobs_v2 hashes) s = answered blobs_v2 (get_blobs_v2 e hashes s)
  serve (engine_get_blobs_v3 hashes) s = answered blobs_v3 (get_blobs_v3 e hashes s)

  -- The requests one after the other, with their outcomes in that order.
  unfoldable pub session : List (Request T) → Server W → List (Outcome T) × Server W
  session [] s = ([], s)
  session (r ∷ rest) s =
      let (o, s') = serve r s in let (more, s'') = session rest s' in (o ∷ more, s'')
