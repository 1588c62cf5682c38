-- ===== src/Rpc/Accounts.antt =====
-- The metrics of the Engine API after a session are what its answers add up to.
use load_reth.Common.{
  ℕ, ◌+◌, ◌%◌, ◌≡◌, Bool, true, false, Option, none, some, List, [], ◌∷◌, length, Result, ok, err,
  String, arith, sum_of, u64_mod,
}
use load_reth.Prevrandao.{B256}
use load_reth.Payload.Execution.{Alloy, data_v3, data_v4}
use load_reth.Validator.Defs.{EngineApiMessageVersion, version_3, version_4}
use load_reth.Rpc.Metrics.{
  LoadEngineRpcMetrics, record_forkchoice, record_get_payload, record_new_payload, record_get_blobs,
}
use load_reth.Rpc.Types.{
  EngineApiError, Answers, Engine, Server, Handler, guarded, finish, timed, validate_blob_request,
  ensure_load_prev_randao, payload_v3_prev_randao,
}
use load_reth.Rpc.Payloads.{
  new_payload_v1, new_payload_v2, new_payload_v3, new_payload_v4, check_attributes,
  fork_choice_updated_v1, fork_choice_updated_v2, fork_choice_updated_v3, get_payload_v1,
  get_payload_v2, get_payload_v3, get_payload_v4, get_payload_v5,
}
use load_reth.Rpc.Queries.{
  get_payload_bodies_by_hash_v1, get_payload_bodies_by_range_v1, get_client_version_v1,
  answer_entries, answer_all_or_none, answer_unless_syncing, ensure_osaka, get_blobs_v1,
  get_blobs_v2, get_blobs_v3,
}
use load_reth.Rpc.Counting.{present, count_some-present}
use load_reth.Rpc.Session.{
  Request, engine_new_payload_v1, engine_new_payload_v2, engine_new_payload_v3,
  engine_new_payload_v4, engine_fork_choice_updated_v1, engine_fork_choice_updated_v2,
  engine_fork_choice_updated_v3, engine_get_payload_v1, engine_get_payload_v2,
  engine_get_payload_v3, engine_get_payload_v4, engine_get_payload_v5,
  engine_get_payload_bodies_by_hash_v1, engine_get_payload_bodies_by_range_v1,
  engine_get_client_version_v1, engine_exchange_capabilities, engine_get_blobs_v1,
  engine_get_blobs_v2, engine_get_blobs_v3, Answer, status, updated, envelope, bodies, versions,
  blobs_v1, blobs_v2, blobs_v3, Outcome, answered, serve, session,
}

module _ {T : Answers} where
  abbrev pub forkchoices : Outcome T → ℕ
  forkchoices (ok (updated u)) = 1
  forkchoices _ = 0

  abbrev pub envelopes : Outcome T → ℕ
  envelopes (ok (envelope v p)) = 1
  envelopes _ = 0

  abbrev pub statuses : Outcome T → ℕ
  statuses (ok (status p)) = 1
  statuses _ = 0

  -- Answers to getBlobs; the empty one of version 3 while the node syncs is none.
  abbrev pub blob_answers : Outcome T → ℕ
  blob_answers (ok (blobs_v1 l)) = 1
  blob_answers (ok (blobs_v2 l)) = 1
  blob_answers (ok (blobs_v3 (some l))) = 1
  blob_answers _ = 0

  abbrev pub blobs_found : Outcome T → ℕ
  blobs_found (ok (blobs_v1 l)) = length (present l)
  blobs_found (ok (blobs_v2 (some l))) = length l
  blobs_found (ok (blobs_v3 (some l))) = length (present l)
  blobs_found _ = 0

-- From `before` to `after` the samples of the three histograms and, modulo 2 ^ 64, the counters of
-- requests and hits grow by these numbers.
abbrev pub Grows : LoadEngineRpcMetrics → LoadEngineRpcMetrics → ℕ → ℕ → ℕ → ℕ → ℕ → Type 0
Grows before after forkchoice get_payload new_payload requests hits =
    (length after.forkchoice_latency ≡ length before.forkchoice_latency + forkchoice)
    × (length after.get_payload_latency ≡ length before.get_payload_latency + get_payload)
    × (length after.new_payload_latency ≡ length before.new_payload_latency + new_payload)
    × (after.get_blobs_requests % u64_mod ≡ (before.get_blobs_requests + requests) % u64_mod)
    × (after.get_blobs_hits % u64_mod ≡ (before.get_blobs_hits + hits) % u64_mod)

module _ {W : Type 0} (T : Answers) where
  -- An outcome is accounted for in the metrics after it.
  abbrev Accounts : Server W → Outcome T × Server W → Type 0
  Accounts s (o, s') =
      Grows s.metrics s'.metrics (forkchoices o) (envelopes o) (statuses o) (blob_answers o)
        (blobs_found o)

  unchanged :
      (s : Server W) (w : W) (x : EngineApiError) → Accounts s (err x, record s { world = w })
  unchanged s w x = ground arith

  guarded-Accounts :
      {A : Type 0} (f : A → Answer T) (r : Result EngineApiError (Unit {0})) (rest : Handler W A)
      (s : Server W)
      → Accounts s (answered f (rest s))
      → Accounts s (answered f (guarded r rest s))
  guarded-Accounts f (ok done) rest s h = h
  guarded-Accounts f (err x) rest s h = unchanged s s.world x

  status-Accounts :
      (s : Server W) (elapsed : ℕ) (w : W) (r : Result EngineApiError T.PayloadStatus)
      → Accounts s (answered status (finish record_new_payload s elapsed w r))
  unfolding record_new_payload
  status-Accounts s elapsed w (err x) = unchanged s w x
  status-Accounts s elapsed w (ok p) = ground arith

  updated-Accounts :
      (s : Server W) (elapsed : ℕ) (w : W) (r : Result EngineApiError T.ForkchoiceUpdated)
      → Accounts s (answered updated (finish record_forkchoice s elapsed w r))
  unfolding record_forkchoice
  updated-Accounts s elapsed w (err x) = unchanged s w x
  updated-Accounts s elapsed w (ok u) = ground arith

  envelope-Accounts :
      (v : EngineApiMessageVersion) (s : Server W) (elapsed : ℕ) (w : W)
      (r : Result EngineApiError (T.Envelope v))
      → Accounts s (answered (envelope v) (finish record_get_payload s elapsed w r))
  unfolding record_get_payload
  envelope-Accounts v s elapsed w (err x) = unchanged s w x
  envelope-Accounts v s elapsed w (ok p) = ground arith

  passed-Accounts :
      {A : Type 0} (f : A → Answer T) (r : Result EngineApiError A) (s : Server W) (w : W)
      → ((x : A)
          → Grows s.metrics s.metrics
              (forkchoices (ok (f x)))
              (envelopes (ok (f x)))
              (statuses (ok (f x)))
              (blob_answers (ok (f x)))
              (blobs_found (ok (f x))))
      → Accounts s (answered f (r, record s { world = w }))
  passed-Accounts f (ok x) s w none_counted = none_counted x
  passed-Accounts f (err x) s w none_counted = unchanged s w x

  module _ {S : Type 0} (e : Engine W S T) where
    blobs_v1-Accounts :
        (found : Result String (List (Option T.BlobAndProofV1))) (s : Server W)
        → Accounts s (answered blobs_v1 (answer_entries e found s))
    unfolding answer_entries record_get_blobs
    blobs_v1-Accounts (err why) s = ground arith
    blobs_v1-Accounts (ok l) s = ground (arith, count_some-present l)

    blobs_v2-Accounts :
        (hashes : List B256) (found : Result String (Option (List T.BlobAndProofV2))) (s : Server W)
        → Accounts s (answered blobs_v2 (answer_all_or_none e hashes found s))
    unfolding answer_all_or_none record_get_blobs
    blobs_v2-Accounts hashes (err why) s = ground arith
    blobs_v2-Accounts hashes (ok none) s = ground arith
    blobs_v2-Accounts hashes (ok (some l)) s = ground arith

    blobs_v3-Accounts :
        (syncing : Bool) (found : Result String (List (Option T.BlobAndProofV2))) (s : Server W)
        → Accounts s (answered blobs_v3 (answer_unless_syncing e syncing found s))
    unfolding answer_unless_syncing answer_entries record_get_blobs
    blobs_v3-Accounts true found s = ground arith
    blobs_v3-Accounts false (err why) s = ground arith
    blobs_v3-Accounts false (ok l) s = ground (arith, count_some-present l)

    -- newPayload behind its two guards.
    submitted-Accounts :
        (hashes : List B256) (b : B256) (call : W → Result EngineApiError T.PayloadStatus × W)
        (s : Server W)
        → Accounts s (
            answered status (
              guarded
                (validate_blob_request hashes)
                (guarded (ensure_load_prev_randao b) (timed e.now record_new_payload call))
                s))
    submitted-Accounts hashes b call s =
        guarded-Accounts status (validate_blob_request hashes)
          (guarded (ensure_load_prev_randao b) (timed e.now record_new_payload call)) s
          (guarded-Accounts status (ensure_load_prev_randao b) (timed e.now record_new_payload call)
            s (status-Accounts s _ _ (call s.world).0))

    module _ (a : Alloy S) (entry : T.ClientVersion) (version : String) where
      serve-Accounts : (r : Request T) (s : Server W) → Accounts s (serve e a entry version r s)
      unfolding serve new_payload_v1 new_payload_v2 new_payload_v3 new_payload_v4
          fork_choice_updated_v1 fork_choice_updated_v2 fork_choice_updated_v3 get_payload_v1
          get_payload_v2 get_payload_v3 get_payload_v4 get_payload_v5 get_payload_bodies_by_hash_v1
          get_payload_bodies_by_range_v1 get_client_version_v1 get_blobs_v1 get_blobs_v2
          get_blobs_v3
      serve-Accounts (engine_new_payload_v1 p) s = status-Accounts s _ _ _
      serve-Accounts (engine_new_payload_v2 p) s = status-Accounts s _ _ _
      serve-Accounts (engine_new_payload_v3 p hashes root) s =
          submitted-Accounts hashes (payload_v3_prev_randao p)
            (e.new_payload_metered version_3 (data_v3 a p hashes root)) s
      serve-Accounts (engine_new_payload_v4 p hashes root reqs) s =
          submitted-Accounts hashes (payload_v3_prev_randao p)
            (e.new_payload_metered version_4 (data_v4 a p hashes root reqs)) s
      serve-Accounts (engine_fork_choice_updated_v1 state attrs) s = updated-Accounts s _ _ _
      serve-Accounts (engine_fork_choice_updated_v2 state attrs) s = updated-Accounts s _ _ _
      serve-Accounts (engine_fork_choice_updated_v3 state attrs) s =
          guarded-Accounts updated (check_attributes e a attrs)
            (timed e.now record_forkchoice (e.fork_choice_updated_metered version_3 state attrs)) s
            (updated-Accounts s _ _ (e.fork_choice_updated_metered version_3 state attrs s.world).0)
      serve-Accounts (engine_get_payload_v1 id) s = envelope-Accounts _ s _ _ _
      serve-Accounts (engine_get_payload_v2 id) s = envelope-Accounts _ s _ _ _
      serve-Accounts (engine_get_payload_v3 id) s = envelope-Accounts _ s _ _ _
      serve-Accounts (engine_get_payload_v4 id) s = envelope-Accounts _ s _ _ _
      serve-Accounts (engine_get_payload_v5 id) s = envelope-Accounts _ s _ _ _
      serve-Accounts (engine_get_payload_bodies_by_hash_v1 hashes) s =
          passed-Accounts bodies _ s _ (λ x. ground arith)
      serve-Accounts (engine_get_payload_bodies_by_range_v1 start count) s =
          passed-Accounts bodies _ s _ (λ x. ground arith)
      serve-Accounts (engine_get_client_version_v1 client) s =
          passed-Accounts versions _ s s.world (λ x. ground arith)
      serve-Accounts (engine_exchange_capabilities peer) s = ground arith
      serve-Accounts (engine_get_blobs_v1 hashes) s =
          let found = e.get_blobs_v1_of_pool s.world hashes in
          guarded-Accounts blobs_v1 (validate_blob_request hashes) (answer_entries e found) s
            (blobs_v1-Accounts found s)
      serve-Accounts (engine_get_blobs_v2 hashes) s =
          let answers = answer_all_or_none e hashes (e.get_blobs_v2_of_pool s.world hashes) in
          guarded-Accounts blobs_v2 (ensure_osaka e s)
            (guarded (validate_blob_request hashes) answers) s
            (guarded-Accounts blobs_v2 (validate_blob_request hashes) answers s
              (blobs_v2-Accounts hashes (e.get_blobs_v2_of_pool s.world hashes) s))
      serve-Accounts (engine_get_blobs_v3 hashes) s =
          let found = e.get_blobs_v3_of_pool s.world hashes in
          let answers = answer_unless_syncing e (e.is_syncing s.world) found in
          guarded-Accounts blobs_v3 (ensure_osaka e s)
            (guarded (validate_blob_request hashes) answers) s
            (guarded-Accounts blobs_v3 (validate_blob_request hashes) answers s
              (blobs_v3-Accounts (e.is_syncing s.world) found s))

      -- After any session of requests, from any state and over any engine and pool: each histogram
      -- has one sample more for each successful answer of its method, in any version, and none for an
      -- error; modulo 2 ^ 64 the counter of getBlobs requests grows by the answers to getBlobs other
      -- than the empty one of version 3 while the node syncs, and the counter of hits by the blobs
      -- that these answers carry. The other methods count nothing.
      pub session-Grows :
          (requests : List (Request T)) (s : Server W)
          → let (outcomes, s') = session e a entry version requests s in
            Grows s.metrics s'.metrics
              (sum_of forkchoices outcomes)
              (sum_of envelopes outcomes)
              (sum_of statuses outcomes)
              (sum_of blob_answers outcomes)
              (sum_of blobs_found outcomes)
      unfolding session
      session-Grows [] s = ground arith
      session-Grows (r ∷ rest) s =
          ground (arith, serve-Accounts r s, session-Grows rest (serve e a entry version r s).1)
