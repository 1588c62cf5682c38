-- ===== src/Payload/Built.antt =====
-- `LoadBuiltPayload` and its conversions to the envelopes of `engine_getPayload`.
-- `Block` is reth's sealed block.
use load_reth.Common.{
  ℕ, Bool, false, Option, none, List, length, Result, ok, err, ◌>>=◌, ◌>>◌, ltb, map_err,
  if◌then◌else◌,
}
use load_reth.Prevrandao.{B256}
use load_reth.Chain.Types.{load_max_blob_count}

abbrev pub Bytes : Type 0
Bytes = List ℕ

-- alloy's `BlobTransactionSidecar`: the blobs of one transaction.
pub record Sidecar : Type 0 where
  pub blobs : List Bytes
  pub commitments : List Bytes
  pub proofs : List Bytes

-- alloy's `BlobTransactionSidecarEip7594`
pub record CellSidecar : Type 0 where
  pub blobs : List Bytes
  pub commitments : List Bytes
  pub cell_proofs : List Bytes

pub data BlobSidecars : Type 0 where
  empty : BlobSidecars
  eip4844 : List Sidecar → BlobSidecars
  eip7594 : List CellSidecar → BlobSidecars

-- reth's `EthBuiltPayload`
pub record EthBuiltPayload (Block : Type 0) : Type 0 where
  pub id : ℕ
  pub block : Block
  pub fees : ℕ
  pub sidecars : BlobSidecars
  pub requests : Option (List Bytes)

pub record LoadBuiltPayload (Block : Type 0) : Type 0 where
  pub inner : EthBuiltPayload Block

pub data ConversionError : Type 0 where
  unexpected_eip4844_sidecars unexpected_eip7594_sidecars : ConversionError

-- How a conversion may end without an envelope.
pub data Failure : Type 0 where
  refused : ConversionError → Failure
  panicked : Failure

pub record BlobsBundleV1 : Type 0 where
  pub commitments : List Bytes
  pub proofs : List Bytes
  pub blobs : List Bytes

-- `Body` is alloy's `ExecutionPayloadV3`.
pub record EnvelopeV3 (Body : Type 0) : Type 0 where
  pub execution_payload : Body
  pub block_value : ℕ
  pub should_override_builder : Bool
  pub blobs_bundle : BlobsBundleV1

-- What the conversions call of alloy and reth; `Env4` and `Env5` are reth's later envelopes.
pub record Conversions (Block Body Env4 Env5 : Type 0) : Type 0 where
  pub hash : Block → B256
  pub from_block_unchecked : B256 → Block → Body
  pub bundle_empty : BlobsBundleV1
  pub bundle_from : List Sidecar → BlobsBundleV1
  pub to_v4 : EthBuiltPayload Block → Result ConversionError Env4
  pub to_v5 : EthBuiltPayload Block → Result ConversionError Env5

unfoldable pub guard_sidecars :
    {Block : Type 0} → LoadBuiltPayload Block → ℕ → Result ConversionError (Unit {0})
guard_sidecars p max_blobs = elim p.inner.sidecars [
  | eip7594 _ ↦ err unexpected_eip7594_sidecars
  | eip4844 sidecars ↦
      if ltb max_blobs (length sidecars) then err unexpected_eip4844_sidecars else ok tt
  | empty ↦ ok tt
]

-- The `match` of the V3 conversion, with its `unreachable!()` arm.
unfoldable pub bundle_of :
    {Block Body Env4 Env5 : Type 0}
    → Conversions Block Body Env4 Env5
    → BlobSidecars
    → Result Failure BlobsBundleV1
bundle_of c empty = ok c.bundle_empty
bundle_of c (eip4844 sidecars) = ok (c.bundle_from sidecars)
bundle_of c (eip7594 _) = err panicked

module _ {Block Body Env4 Env5 : Type 0} (c : Conversions Block Body Env4 Env5) where
  unfoldable pub try_into_v3 : LoadBuiltPayload Block → Result Failure (EnvelopeV3 Body)
  unfolding bundle_of guard_sidecars
  try_into_v3 value = do
    map_err refused (guard_sidecars value load_max_blob_count)
    blobs_bundle ← bundle_of c value.inner.sidecars
    ok (record {
      execution_payload = c.from_block_unchecked (c.hash value.inner.block) value.inner.block;
      block_value = value.inner.fees;
      should_override_builder = false;
      blobs_bundle = blobs_bundle;
    })

  unfoldable pub try_into_v4 : LoadBuiltPayload Block → Result ConversionError Env4
  unfolding guard_sidecars
  try_into_v4 value = do guard_sidecars value load_max_blob_count; c.to_v4 value.inner

  unfoldable pub try_into_v5 : LoadBuiltPayload Block → Result ConversionError Env5
  unfolding guard_sidecars
  try_into_v5 value = do guard_sidecars value load_max_blob_count; c.to_v5 value.inner

-- `empty_load_payload`, with the default block.
unfoldable pub empty_load_payload : {Block : Type 0} → Block → ℕ → LoadBuiltPayload Block
empty_load_payload default id = record {
  inner = record { id = id; block = default; fees = 0; sidecars = empty; requests = none };
}
