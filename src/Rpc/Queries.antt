-- ===== src/Rpc/Queries.antt =====
-- The handlers of engine/rpc.rs that look something up: bodies, blobs, versions, capabilities.
use load_reth.Common.{
  ℕ, suc, Bool, true, false, not, Option, none, some, List, [], ◌∷◌, ◌++◌, length, Result, ok, err,
  ◌>>=◌, String, sub64, if◌then◌else◌,
}
use load_reth.Prevrandao.{B256}
use load_reth.Chain.Types.{Hardfork}
use load_reth.Validator.Defs.{unsupported_fork}
use load_reth.Rpc.Metrics.{record_get_blobs}
use load_reth.Rpc.Types.{
  EngineApiError, engine_object_validation_error, internal, Answers, Engine, Server, Handler,
  validate_blob_request, guarded,
}

abbrev pub load_cap_blobs : String
load_cap_blobs = "load.blobs.1024"

abbrev pub load_cap_prevrandao : String
load_cap_prevrandao = "load.prev_randao.0x01"

-- `iter().filter(|entry| entry.is_some()).count()`
abbrev pub count_some : {A : Type 0} → List (Option A) → ℕ
count_some [] = 0
count_some (none ∷ rest) = count_some rest
count_some (some _ ∷ rest) = suc (count_some rest)

-- `Ok(Some(blobs))` where `answer_entries` gives `Ok(blobs)`.
abbrev pub in_some :
    {W A : Type 0}
    → Result EngineApiError A × Server W
    → Result EngineApiError (Option A) × Server W
in_some (ok a, s) = (ok (some a), s)
in_some (err x, s) = (err x, s)

module _ {W S : Type 0} {T : Answers} (e : Engine W S T) where
  -- A call that is passed on without a sample.
  abbrev pub passed : {A : Type 0} → (W → Result EngineApiError A × W) → Handler W A
  passed call s = ((call s.world).0, record s { world = (call s.world).1 })

  unfoldable pub get_payload_bodies_by_hash_v1 : List B256 → Handler W T.Bodies
  get_payload_bodies_by_hash_v1 hashes = passed (e.get_payload_bodies_by_hash_metered hashes)

  unfoldable pub get_payload_bodies_by_range_v1 : ℕ → ℕ → Handler W T.Bodies
  get_payload_bodies_by_range_v1 start count =
      passed (e.get_payload_bodies_by_range_metered start count)

  -- `entry` is `load_client_version_entry()`.
  unfoldable pub get_client_version_v1 :
      T.ClientVersion → T.ClientVersion → Result EngineApiError (List T.ClientVersion)
  get_client_version_v1 entry client_version = do
    versions ← e.get_client_version client_version
    ok (versions ++ entry ∷ [])

  -- `for cap in capabilities { caps.add_capability(cap) }`
  abbrev pub add_all : T.Capabilities → List String → T.Capabilities
  add_all caps [] = caps
  add_all caps (cap ∷ rest) = add_all (e.add_capability caps cap) rest

  -- `version` is `load_client_version_string()`.
  unfoldable pub exchange_capabilities : String → List String → List String
  exchange_capabilities version capabilities = e.list (
      add_all
        (e.add_capability
          (e.add_capability (e.add_capability e.capabilities load_cap_blobs) load_cap_prevrandao)
          version)
        capabilities)

  -- The test for Osaka at the current time.
  unfoldable pub ensure_osaka : Server W → Result EngineApiError (Unit {0})
  ensure_osaka s =
      if not (e.chain_spec.inner.active Hardfork.osaka (e.unix_seconds s.world))
      then err (engine_object_validation_error unsupported_fork)
      else ok tt

  -- `Ok(blobs)` of the pool, with its hits and misses counted, or the pool's error.
  unfoldable pub answer_entries :
      {A : Type 0} → Result String (List (Option A)) → Handler W (List (Option A))
  answer_entries (err why) s = (err (internal why), s)
  answer_entries (ok blobs) s =
      let hits = count_some blobs in
      let misses = sub64 (length blobs) hits in
      (ok blobs, record s { metrics = record_get_blobs s.metrics hits misses })

  unfoldable pub get_blobs_v1 : List B256 → Handler W (List (Option T.BlobAndProofV1))
  get_blobs_v1 versioned_hashes s =
      guarded (validate_blob_request versioned_hashes)
        (answer_entries (e.get_blobs_v1_of_pool s.world versioned_hashes)) s

  unfoldable pub answer_all_or_none :
      {A : Type 0} → List B256 → Result String (Option (List A)) → Handler W (Option (List A))
  answer_all_or_none versioned_hashes (err why) s = (err (internal why), s)
  answer_all_or_none versioned_hashes (ok (some entries)) s =
      let hits = length entries in
      let misses = sub64 (length versioned_hashes) hits in
      (ok (some entries), record s { metrics = record_get_blobs s.metrics hits misses })
  answer_all_or_none versioned_hashes (ok none) s =
      (ok none, record s { metrics = record_get_blobs s.metrics 0 (length versioned_hashes) })

  unfoldable pub get_blobs_v2 : List B256 → Handler W (Option (List T.BlobAndProofV2))
  get_blobs_v2 versioned_hashes s =
      guarded (ensure_osaka s)
        (guarded (validate_blob_request versioned_hashes)
          (answer_all_or_none versioned_hashes (e.get_blobs_v2_of_pool s.world versioned_hashes)))
        s

  unfoldable pub answer_unless_syncing :
      {A : Type 0} → Bool → Result String (List (Option A)) → Handler W (Option (List (Option A)))
  answer_unless_syncing true found s = (ok none, s)
  answer_unless_syncing false found s = in_some (answer_entries found s)

  unfoldable pub get_blobs_v3 : List B256 → Handler W (Option (List (Option T.BlobAndProofV2)))
  get_blobs_v3 versioned_hashes s =
      guarded (ensure_osaka s)
        (guarded (validate_blob_request versioned_hashes) (
          answer_unless_syncing (e.is_syncing s.world)
            (e.get_blobs_v3_of_pool s.world versioned_hashes)))
        s
