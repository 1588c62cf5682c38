-- ===== src/Payload/Execution.antt =====
-- `LoadExecutionData` and its constructors. `S` is alloy's `ExecutionPayloadSidecar`.
use load_reth.Common.{ℕ, ◌≡◌, Option, none, some, List, length}
use load_reth.Prevrandao.{B256}
use load_reth.Payload.Attributes.{Withdrawal}
use load_reth.Payload.Built.{Bytes}

pub record ExecutionPayloadV1 : Type 0 where
  pub parent_hash : B256
  pub fee_recipient : Bytes
  pub state_root : B256
  pub receipts_root : B256
  pub logs_bloom : Bytes
  pub prev_randao : B256
  pub block_number : ℕ
  pub gas_limit : ℕ
  pub gas_used : ℕ
  pub timestamp : ℕ
  pub extra_data : Bytes
  pub base_fee_per_gas : ℕ
  pub block_hash : B256
  pub transactions : List Bytes

pub record ExecutionPayloadV2 : Type 0 where
  pub payload_inner : ExecutionPayloadV1
  pub withdrawals : List Withdrawal

pub record ExecutionPayloadV3 : Type 0 where
  pub payload_inner : ExecutionPayloadV2
  pub blob_gas_used : ℕ
  pub excess_blob_gas : ℕ

pub data ExecutionPayload : Type 0 where
  v1 : ExecutionPayloadV1 → ExecutionPayload
  v2 : ExecutionPayloadV2 → ExecutionPayload
  v3 : ExecutionPayloadV3 → ExecutionPayload

pub record CancunPayloadFields : Type 0 where
  pub parent_beacon_block_root : B256
  pub versioned_hashes : List B256

-- `RequestsOrHash` of EIP-7685
pub data RequestsOrHash : Type 0 where
  requests : List Bytes → RequestsOrHash
  hash : B256 → RequestsOrHash

-- `ExecutionData`, which `LoadExecutionData` wraps.
pub record ExecutionData (S : Type 0) : Type 0 where
  pub payload : ExecutionPayload
  pub sidecar : S

pub record LoadExecutionData (S : Type 0) : Type 0 where
  pub inner : ExecutionData S

-- What the program calls of alloy on payloads and sidecars. `requests_of` gives the requests that
-- the sidecar carries as a list, as alloy's `requests()` does.
pub record Alloy (S : Type 0) : Type 0 where
  pub timestamp : ExecutionPayload → ℕ
  pub prev_randao : ExecutionPayload → B256
  pub as_v1 : ExecutionPayload → ExecutionPayloadV1
  pub withdrawals : ExecutionPayload → Option (List Withdrawal)
  pub sidecar_none : S
  pub sidecar_v3 : CancunPayloadFields → S
  pub sidecar_v4 : CancunPayloadFields → RequestsOrHash → S
  pub versioned_hashes : S → Option (List B256)
  pub requests_of : S → Option (List Bytes)
  pub parent_beacon_block_root : S → Option B256

abbrev pub listed : RequestsOrHash → Option (List Bytes)
listed (requests rs) = some rs
listed (hash _) = none

-- alloy's documentation of these: the readers go to the innermost payload, and a sidecar gives back
-- what it was made of.
pub record AlloyLaws {S : Type 0} (a : Alloy S) : Type 0 where
  pub timestamp_v1 : (p : ExecutionPayload) → a.timestamp p ≡ (a.as_v1 p).timestamp
  pub prev_randao_v1 : (p : ExecutionPayload) → a.prev_randao p ≡ (a.as_v1 p).prev_randao
  pub as_v1_of_v1 : (p : ExecutionPayloadV1) → a.as_v1 (v1 p) ≡ p
  pub as_v1_of_v3 : (p : ExecutionPayloadV3) → a.as_v1 (v3 p) ≡ p.payload_inner.payload_inner
  pub hashes_none : a.versioned_hashes a.sidecar_none ≡ none
  pub hashes_v3 :
      (c : CancunPayloadFields) → a.versioned_hashes (a.sidecar_v3 c) ≡ some c.versioned_hashes
  pub hashes_v4 :
      (c : CancunPayloadFields) (r : RequestsOrHash)
      → a.versioned_hashes (a.sidecar_v4 c r) ≡ some c.versioned_hashes
  pub requests_none : a.requests_of a.sidecar_none ≡ none
  pub requests_v3 : (c : CancunPayloadFields) → a.requests_of (a.sidecar_v3 c) ≡ none
  pub requests_v4 :
      (c : CancunPayloadFields) (r : RequestsOrHash) → a.requests_of (a.sidecar_v4 c r) ≡ listed r

module _ {S : Type 0} (a : Alloy S) where
  unfoldable pub of_v1 : ExecutionPayloadV1 → LoadExecutionData S
  of_v1 p = record { inner = record { payload = v1 p; sidecar = a.sidecar_none } }

  -- `ExecutionPayloadInputV2::into_payload` has made the argument.
  unfoldable pub of_input_v2 : ExecutionPayload → LoadExecutionData S
  of_input_v2 p = record { inner = record { payload = p; sidecar = a.sidecar_none } }

  unfoldable pub data_v3 : ExecutionPayloadV3 → List B256 → B256 → LoadExecutionData S
  data_v3 p hashes root = record {
    inner = record {
      payload = v3 p;
      sidecar =
          a.sidecar_v3 (record { parent_beacon_block_root = root; versioned_hashes = hashes });
    };
  }

  unfoldable pub data_v4 :
      ExecutionPayloadV3 → List B256 → B256 → RequestsOrHash → LoadExecutionData S
  data_v4 p hashes root reqs = record {
    inner = record {
      payload = v3 p;
      sidecar =
          a.sidecar_v4 (record { parent_beacon_block_root = root; versioned_hashes = hashes }) reqs;
    };
  }

  -- The readers of the `ExecutionPayload` trait that look into the data.
  unfoldable pub gas_used : LoadExecutionData S → ℕ
  gas_used d = (a.as_v1 d.inner.payload).gas_used

  unfoldable pub transaction_count : LoadExecutionData S → ℕ
  transaction_count d = length (a.as_v1 d.inner.payload).transactions

  unfoldable pub block_access_list : LoadExecutionData S → Option Bytes
  block_access_list d = none

-- `LoadExecutionData::new`
unfoldable pub new_execution_data : {S : Type 0} → ExecutionPayload → S → LoadExecutionData S
new_execution_data payload sidecar = record {
  inner = record { payload = payload; sidecar = sidecar };
}

-- `LoadEngineTypes::block_to_payload`; the first two arguments are the hash of a sealed block and
-- `ExecutionPayload::from_block_unchecked`.
unfoldable pub block_to_payload :
    {S Block : Type 0}
    → (Block → B256)
    → (B256 → Block → ExecutionPayload × S)
    → Block
    → LoadExecutionData S
unfolding new_execution_data
block_to_payload hash_of from_block_unchecked block =
    let (payload, sidecar) = from_block_unchecked (hash_of block) block in
    new_execution_data payload sidecar
