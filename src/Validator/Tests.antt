-- ===== src/Validator/Tests.antt =====
-- The validator on a payload with two versioned hashes.
use load_reth.Common.{ℕ, ◌≡◌, ◌↔◌, some, [], ◌∷◌, ok}
use load_reth.Prevrandao.{load_prevrandao}
use load_reth.Chain.Types.{LoadChainSpec}
use load_reth.Chain.Blobs.{spec_of}
use load_reth.Chain.Tests.{minimal, reth}
use load_reth.Payload.Execution.{
  ExecutionPayloadV1, ExecutionPayloadV3, v3, LoadExecutionData, requests,
}
use load_reth.Payload.Tests.{Side, alloy, asked}
use load_reth.Validator.Defs.{
  RethChecks, version_3, execution_payload, payload_attributes, convert_payload_to_block,
  validate_version_specific_fields, ensure_well_formed_attributes, ensure_load_payload_invariants,
}
use load_reth.Validator.Acceptance.{
  IsLoadPayload, IsLoadObject, convert_payload_to_block_iff, validate_version_specific_fields_iff,
  ensure_load_payload_invariants_iff,
}

abbrev pub innermost : ExecutionPayloadV1
innermost = record {
  parent_hash = [];
  fee_recipient = [];
  state_root = [];
  receipts_root = [];
  logs_bloom = [];
  prev_randao = load_prevrandao;
  block_number = 5;
  gas_limit = 30;
  gas_used = 20;
  timestamp = 12;
  extra_data = [];
  base_fee_per_gas = 7;
  block_hash = [];
  transactions = [];
}

abbrev pub body : ExecutionPayloadV3
body = record {
  payload_inner = record { payload_inner = innermost; withdrawals = [] };
  blob_gas_used = 0;
  excess_blob_gas = 0;
}

abbrev exec_data : LoadExecutionData Side
exec_data = record {
  inner = record {
    payload = v3 body;
    sidecar = some (
      record { parent_beacon_block_root = []; versioned_hashes = [] ∷ [] ∷ [] },
      some (requests ([] ∷ [])),
    );
  };
}

abbrev checks : RethChecks Side ℕ
checks = record {
  version_specific_fields = λ spec version o. ok tt;
  well_formed_payload = λ p. ok 5;
}

abbrev spec : LoadChainSpec
spec = spec_of reth minimal

ensure_load_payload_invariants_iff_example :
    (ensure_load_payload_invariants alloy spec exec_data ≡ ok tt)
    ↔ IsLoadPayload alloy spec exec_data
ensure_load_payload_invariants_iff_example = ensure_load_payload_invariants_iff alloy spec exec_data

convert_payload_to_block_iff_example :
    (convert_payload_to_block alloy checks spec exec_data ≡ ok 5)
    ↔ (IsLoadPayload alloy spec exec_data × (checks.well_formed_payload exec_data ≡ ok 5))
convert_payload_to_block_iff_example = convert_payload_to_block_iff alloy checks spec exec_data 5

validate_version_specific_fields_iff_example :
    ((validate_version_specific_fields alloy checks spec version_3 (execution_payload exec_data)
        ≡ ok tt)
      ↔ (IsLoadObject alloy checks spec (execution_payload exec_data)
          × (checks.version_specific_fields spec version_3 (execution_payload exec_data) ≡ ok tt)))
    × ((ensure_well_formed_attributes alloy checks spec version_3 asked ≡ ok tt) ↔ (
        validate_version_specific_fields alloy checks spec version_3 (payload_attributes asked)
        ≡ ok tt))
validate_version_specific_fields_iff_example =
    validate_version_specific_fields_iff alloy checks spec version_3 (execution_payload exec_data)
      asked
