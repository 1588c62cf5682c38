-- ===== src/Rpc/Tests.antt =====
-- The Engine API over an engine whose state is its clock, which every call moves on by three.
use load_reth.Common.{
  ℕ, ◌+◌, ◌≡◌, refl, ◌⊎◌, ◌≤◌, ◌<◌, false, true, Option, none, some, List, [], ◌∷◌, length, Result,
  ok, err, arith, String, subst,
}
use load_reth.Prevrandao.{B256, load_prevrandao}
use load_reth.Chain.Types.{Hardfork, load_max_blob_count}
use load_reth.Chain.Blobs.{spec_of, from_genesis_ok}
use load_reth.Chain.Tests.{minimal, reth, reth_laws, minimal-IsLoadGenesis}
use load_reth.Payload.Execution.{requests, data_v4}
use load_reth.Payload.Tests.{Side, alloy, alloy_laws, asked}
use load_reth.Validator.Defs.{
  version_3, version_4, unsupported_fork, invalid_params, bad_prev_randao,
}
use load_reth.Validator.Acceptance.{IsLoadPayload}
use load_reth.Validator.Tests.{body}
use load_reth.Rpc.Metrics.{record_new_payload, record_forkchoice, record_get_blobs}
use load_reth.Rpc.Types.{
  EngineApiError, engine_object_validation_error, blob_request_too_large, Answers, Engine, Server,
  timed, validate_blob_request, payload_v3_prev_randao,
}
use load_reth.Rpc.Payloads.{new_payload_v4, fork_choice_updated_v3}
use load_reth.Rpc.Queries.{
  get_blobs_v1, get_blobs_v2, get_blobs_v3, ensure_osaka, answer_entries, answer_all_or_none,
  answer_unless_syncing,
}
use load_reth.Rpc.Refusals.{IsRefusal}
use load_reth.Rpc.Guards.{new_payload_v4_cases, fork_choice_updated_v3_cases}
use load_reth.Rpc.Counting.{PoolAnswers, Counted}
use load_reth.Rpc.Blobs.{
  AnswersV3, get_blobs_v1-Counted, get_blobs_v2-Counted, get_blobs_v3-AnswersV3,
}
use load_reth.Rpc.Capabilities.{SetLaws, get_blobs_refused}

abbrev pub answers : Answers
answers = record {
  PayloadStatus = ℕ;
  ForkchoiceState = ℕ;
  ForkchoiceUpdated = ℕ;
  Envelope = λ v. ℕ;
  Bodies = ℕ;
  BlobAndProofV1 = ℕ;
  BlobAndProofV2 = ℕ;
  ClientVersion = String;
  Capabilities = List String;
}

-- A pool that has the blob of the empty hash alone.
abbrev pub look_up : List B256 → List (Option ℕ)
look_up [] = []
look_up ([] ∷ rest) = some 1 ∷ look_up rest
look_up ((x ∷ h) ∷ rest) = none ∷ look_up rest

look_up-length : (l : List B256) → length (look_up l) ≡ length l
look_up-length [] = refl
look_up-length ([] ∷ rest) = omega (arith, look_up-length rest)
look_up-length ((x ∷ h) ∷ rest) = omega (arith, look_up-length rest)

abbrev pub engine : Engine ℕ Side answers
engine = record {
  now = λ w. w;
  unix_seconds = λ w. w;
  is_syncing = λ w. false;
  chain_spec = spec_of reth minimal;
  new_payload_metered = λ v payload w. (ok 1, w + 3);
  fork_choice_updated_metered = λ v state attributes w. (ok 2, w + 3);
  get_payload_metered = λ v id w. (ok 3, w + 3);
  get_payload_bodies_by_hash_metered = λ hashes w. (ok 4, w + 3);
  get_payload_bodies_by_range_metered = λ start count w. (ok 4, w + 3);
  get_client_version = λ v. ok [];
  capabilities = [];
  add_capability = λ caps cap. cap ∷ caps;
  list = λ caps. caps;
  get_blobs_v1_of_pool = λ w hashes. ok (look_up hashes);
  get_blobs_v2_of_pool = λ w hashes. ok none;
  get_blobs_v3_of_pool = λ w hashes. ok (look_up hashes);
}

one_each :
    (hashes : List B256) (l : List (Option ℕ))
    → Path (Result String (List (Option ℕ))) (ok (look_up hashes)) (ok l)
    → length l ≡ length hashes
one_each hashes l h =
    subst (λ k. length k ≡ length hashes) {x = look_up hashes} {y = l} (cc) (look_up-length hashes)

pool_answers : PoolAnswers engine
pool_answers = record {
  one_each_v1 = λ w hashes l h. one_each hashes l h;
  one_each_v2 = λ w hashes l h. cc;
  one_each_v3 = λ w hashes l h. one_each hashes l h;
}

abbrev pub started : Server ℕ
started = record {
  metrics = record {
    forkchoice_latency = [];
    get_payload_latency = [];
    new_payload_latency = [];
    get_blobs_requests = 0;
    get_blobs_hits = 0;
    get_blobs_misses = 0;
  };
  world = 2_000;
}

abbrev hashes : List B256
hashes = [] ∷ (5 ∷ []) ∷ []

new_payload_v4_cases_example :
    (IsLoadPayload alloy (spec_of reth minimal) (data_v4 alloy body hashes [] (requests []))
      × (new_payload_v4 engine alloy body hashes [] (requests []) started
          ≡ timed engine.now record_new_payload
              (engine.new_payload_metered version_4 (data_v4 alloy body hashes [] (requests [])))
              started))
    ⊎ ((¬ IsLoadPayload alloy (spec_of reth minimal) (data_v4 alloy body hashes [] (requests [])))
        × ((x : EngineApiError) × IsRefusal hashes (payload_v3_prev_randao body) x
            × (new_payload_v4 engine alloy body hashes [] (requests []) started
                ≡ (err x, started))))
new_payload_v4_cases_example =
    new_payload_v4_cases engine alloy alloy_laws reth reth_laws minimal (spec_of reth minimal)
      (from_genesis_ok reth minimal minimal-IsLoadGenesis) body hashes [] (requests []) started

fork_choice_updated_v3_cases_example :
    ((load_prevrandao ≡ load_prevrandao)
      × (fork_choice_updated_v3 engine alloy 9 (some asked) started
          ≡ timed engine.now record_forkchoice
              (engine.fork_choice_updated_metered version_3 9 (some asked))
              started))
    ⊎ ((¬ (load_prevrandao ≡ load_prevrandao))
        × (fork_choice_updated_v3 engine alloy 9 (some asked) started
            ≡ (err (engine_object_validation_error (invalid_params bad_prev_randao)), started)))
fork_choice_updated_v3_cases_example =
    fork_choice_updated_v3_cases engine alloy 9 (some asked) started

abbrev counted : ℕ → ℕ → Server ℕ
counted hits misses = record started {
  metrics = record started.metrics {
    get_blobs_requests = 1;
    get_blobs_hits = hits;
    get_blobs_misses = misses;
  };
}

get_blobs_v1-Counted_example :
    (2 ≤ load_max_blob_count)
    × (engine.get_blobs_v1_of_pool 2_000 hashes ≡ ok (some 1 ∷ none ∷ []))
    × Counted 1 2 started (counted 1 1)
unfolding get_blobs_v1 validate_blob_request answer_entries record_get_blobs
get_blobs_v1-Counted_example =
    get_blobs_v1-Counted engine hashes started (counted 1 1) (some 1 ∷ none ∷ []) pool_answers refl

get_blobs_v2-Counted_example :
    (engine.chain_spec.inner.active Hardfork.osaka 2_000 ≡ true)
    × (2 ≤ load_max_blob_count)
    × (engine.get_blobs_v2_of_pool 2_000 hashes ≡ ok none)
    × Counted 0 2 started (counted 0 2)
unfolding get_blobs_v2 ensure_osaka validate_blob_request answer_all_or_none record_get_blobs
get_blobs_v2-Counted_example =
    get_blobs_v2-Counted engine hashes started (counted 0 2) none pool_answers refl

get_blobs_v3-AnswersV3_example :
    (engine.chain_spec.inner.active Hardfork.osaka 2_000 ≡ true)
    × (2 ≤ load_max_blob_count)
    × AnswersV3 engine hashes started (counted 1 1) (some (some 1 ∷ none ∷ []))
unfolding get_blobs_v3 ensure_osaka validate_blob_request answer_unless_syncing answer_entries
    record_get_blobs
get_blobs_v3-AnswersV3_example =
    get_blobs_v3-AnswersV3 engine hashes started (counted 1 1) (some (some 1 ∷ none ∷ []))
      pool_answers refl

set_laws : SetLaws engine
set_laws = record { listed = λ caps cap x. (λ h. h, λ h. h) }

get_blobs_refused_example :
    ((engine.chain_spec.inner.active Hardfork.osaka 2_000 ≡ true) × (2 ≤ load_max_blob_count))
    ⊎ ((engine.chain_spec.inner.active Hardfork.osaka 2_000 ≡ true)
        × (load_max_blob_count < 2)
        × (get_blobs_v2 engine hashes started ≡ (err (blob_request_too_large 2), started))
        × (get_blobs_v3 engine hashes started ≡ (err (blob_request_too_large 2), started)))
    ⊎ ((engine.chain_spec.inner.active Hardfork.osaka 2_000 ≡ false)
        × (get_blobs_v2 engine hashes started
            ≡ (err (engine_object_validation_error unsupported_fork), started))
        × (get_blobs_v3 engine hashes started
            ≡ (err (engine_object_validation_error unsupported_fork), started)))
get_blobs_refused_example = get_blobs_refused engine hashes started
