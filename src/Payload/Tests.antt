-- ===== src/Payload/Tests.antt =====
-- Payloads and attributes with calls of alloy and reth that are written out.
use load_reth.Common.{
  ℕ, ◌≡◌, refl, ◌⊎◌, Option, none, some, List, [], ◌∷◌, ◌++◌, Result, ok, err, false,
}
use load_reth.Prevrandao.{B256, load_prevrandao}
use load_reth.Chain.Blobs.{spec_of}
use load_reth.Chain.Tests.{minimal, reth}
use load_reth.Payload.Attributes.{
  Withdrawal, LoadPayloadAttributes, LoadPayloadBuilderAttributes, EthTryNew, TryNewLaws,
  build_local,
}
use load_reth.Payload.Built.{
  Bytes, Sidecar, CellSidecar, BlobSidecars, empty, eip4844, eip7594, LoadBuiltPayload, Conversions,
  BlobsBundleV1, ConversionError, unexpected_eip4844_sidecars, refused, try_into_v3, try_into_v5,
}
use load_reth.Payload.Execution.{
  ExecutionPayloadV1, ExecutionPayload, v1, v2, v3, CancunPayloadFields, RequestsOrHash, listed,
  Alloy, AlloyLaws,
}
use load_reth.Payload.Envelopes.{
  FitsEnvelope, RefusedWith, CarriesAll, try_into_v3_cases, try_into_v5-empty,
}

abbrev pub Side : Type 0
Side = Option (CancunPayloadFields × Option RequestsOrHash)

abbrev innermost : ExecutionPayload → ExecutionPayloadV1
innermost (v1 p) = p
innermost (v2 p) = p.payload_inner
innermost (v3 p) = p.payload_inner.payload_inner

abbrev withdrawn : ExecutionPayload → Option (List Withdrawal)
withdrawn (v1 p) = none
withdrawn (v2 p) = some p.withdrawals
withdrawn (v3 p) = some p.payload_inner.withdrawals

abbrev hashes_of : Side → Option (List B256)
hashes_of none = none
hashes_of (some (c, r)) = some c.versioned_hashes

abbrev listed_of : Side → Option (List Bytes)
listed_of none = none
listed_of (some (c, none)) = none
listed_of (some (c, some r)) = listed r

abbrev root_of : Side → Option B256
root_of none = none
root_of (some (c, r)) = some c.parent_beacon_block_root

abbrev pub alloy : Alloy Side
alloy = record {
  timestamp = λ p. (innermost p).timestamp;
  prev_randao = λ p. (innermost p).prev_randao;
  as_v1 = innermost;
  withdrawals = withdrawn;
  sidecar_none = none;
  sidecar_v3 = λ c. some (c, none);
  sidecar_v4 = λ c r. some (c, some r);
  versioned_hashes = hashes_of;
  requests_of = listed_of;
  parent_beacon_block_root = root_of;
}

pub alloy_laws : AlloyLaws alloy
alloy_laws = record {
  timestamp_v1 = λ p. refl;
  prev_randao_v1 = λ p. refl;
  as_v1_of_v1 = λ p. refl;
  as_v1_of_v3 = λ p. refl;
  hashes_none = refl;
  hashes_v3 = λ c. refl;
  hashes_v4 = λ c r. refl;
  requests_none = refl;
  requests_v3 = λ c. refl;
  requests_v4 = λ c r. refl;
}

abbrev pub asked : LoadPayloadAttributes
asked = record {
  inner = record {
    timestamp = 12;
    prev_randao = load_prevrandao;
    suggested_fee_recipient = [];
    withdrawals = none;
    parent_beacon_block_root = none;
  };
}

abbrev pub eth_try_new : EthTryNew
eth_try_new parent a v = record {
  id = v;
  parent = parent;
  timestamp = a.timestamp;
  suggested_fee_recipient = a.suggested_fee_recipient;
  prev_randao = a.prev_randao;
  withdrawals = [];
  parent_beacon_block_root = a.parent_beacon_block_root;
}

pub try_new_laws : TryNewLaws eth_try_new
try_new_laws = record { timestamp_kept = λ p a v. refl; prev_randao_kept = λ p a v. refl }

abbrev kept : LoadPayloadBuilderAttributes
kept = record { inner = eth_try_new (1 ∷ []) asked.inner 3 }

abbrev local : LoadPayloadAttributes
local = build_local (spec_of reth minimal) (9 ∷ []) 20

abbrev local_kept : LoadPayloadBuilderAttributes
local_kept = record { inner = eth_try_new (1 ∷ []) local.inner 3 }

abbrev blobs_of : List Sidecar → List Bytes
blobs_of [] = []
blobs_of (s ∷ l) = s.blobs ++ blobs_of l

abbrev v5_of : BlobSidecars → Result ConversionError ℕ
v5_of empty = ok 5
v5_of (eip4844 l) = err unexpected_eip4844_sidecars
v5_of (eip7594 l) = ok 5

abbrev conversions : Conversions ℕ ℕ ℕ ℕ
conversions = record {
  hash = λ block. [];
  from_block_unchecked = λ hash block. block;
  bundle_empty = record { commitments = []; proofs = []; blobs = [] };
  bundle_from = λ l. record { commitments = []; proofs = []; blobs = blobs_of l };
  to_v4 = λ p. ok 4;
  to_v5 = λ p. v5_of p.sidecars;
}

abbrev with_sidecars : BlobSidecars → LoadBuiltPayload ℕ
with_sidecars s = record {
  inner = record { id = 1; block = 8; fees = 6; sidecars = s; requests = none };
}

abbrev cell_sidecar : CellSidecar
cell_sidecar = record { blobs = []; commitments = []; cell_proofs = [] }

abbrev celled : LoadBuiltPayload ℕ
celled = with_sidecars (eip7594 (cell_sidecar ∷ []))

try_into_v3_cases_example :
    (FitsEnvelope celled.inner.sidecars
      × ((b : BlobsBundleV1) × CarriesAll conversions celled.inner.sidecars b
          × (try_into_v3 conversions celled
              ≡ ok (record {
                execution_payload = 8;
                block_value = 6;
                should_override_builder = false;
                blobs_bundle = b;
              }))))
    ⊎ ((e : ConversionError) × RefusedWith celled.inner.sidecars e
        × (try_into_v3 conversions celled ≡ err (refused e)))
try_into_v3_cases_example = try_into_v3_cases conversions celled

try_into_v5-empty_example : (with_sidecars empty).inner.sidecars ≡ empty
unfolding try_into_v5
try_into_v5-empty_example = try_into_v5-empty conversions (with_sidecars empty) 5 (λ l e. cc) refl
