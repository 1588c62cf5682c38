-- ===== src/Rpc/Served.antt =====
-- A session of the Engine API that builds a payload, fetches it, and asks for blobs.
use load_reth.Common.{◌≡◌, refl, some, List, [], ◌∷◌, sum_of}
use load_reth.Prevrandao.{is_load_prev_randao, slice_eq, load_prevrandao}
use load_reth.Payload.Attributes.{LoadPayloadAttributes}
use load_reth.Payload.Tests.{alloy, asked}
use load_reth.Rpc.Metrics.{record_forkchoice, record_get_payload, record_get_blobs}
use load_reth.Rpc.Types.{ensure_load_prev_randao, validate_blob_request}
use load_reth.Rpc.Payloads.{fork_choice_updated_v3, check_attributes, get_payload_v3}
use load_reth.Rpc.Queries.{answer_entries, get_blobs_v1}
use load_reth.Rpc.Session.{
  Request, engine_fork_choice_updated_v3, engine_get_payload_v3, engine_get_blobs_v1, serve,
  session,
}
use load_reth.Rpc.Accounts.{
  Grows, forkchoices, envelopes, statuses, blob_answers, blobs_found, session-Grows,
}
use load_reth.Rpc.Tests.{answers, engine, started}

-- Attributes with another randomness, which are refused.
abbrev random : LoadPayloadAttributes
random = record asked { inner = record asked.inner { prev_randao = [] } }

abbrev requests : List (Request answers)
requests =
    engine_fork_choice_updated_v3 9 (some asked)
    ∷ engine_fork_choice_updated_v3 9 (some random)
    ∷ engine_get_payload_v3 4
    ∷ engine_get_blobs_v1 ([] ∷ (5 ∷ []) ∷ [])
    ∷ []

session_metrics : (session engine alloy "load" "v1" requests started).1.metrics ≡ record {
  forkchoice_latency = 3 ∷ [];
  get_payload_latency = 3 ∷ [];
  new_payload_latency = [];
  get_blobs_requests = 1;
  get_blobs_hits = 1;
  get_blobs_misses = 1;
}
unfolding session serve fork_choice_updated_v3 check_attributes ensure_load_prev_randao
    is_load_prev_randao slice_eq load_prevrandao get_payload_v3 get_blobs_v1 validate_blob_request
    answer_entries record_forkchoice record_get_payload record_get_blobs
session_metrics = refl

session-Grows_example :
    let (outcomes, s') = session engine alloy "load" "v1" requests started in
    Grows started.metrics s'.metrics
      (sum_of forkchoices outcomes)
      (sum_of envelopes outcomes)
      (sum_of statuses outcomes)
      (sum_of blob_answers outcomes)
      (sum_of blobs_found outcomes)
session-Grows_example = session-Grows answers engine alloy "load" "v1" requests started
