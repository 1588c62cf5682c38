-- ===== src/Validator/Defs.antt =====
-- `LoadEngineValidator`. It keeps a chain specification, through which it reads the forks.
use load_reth.Common.{
  ℕ, Bool, ◌&&◌, not, Option, none, some, List, length, Result, ok, err, ◌>>◌, map_err, String, ltb,
  is_some, if◌then◌else◌,
}
use load_reth.Prevrandao.{B256, is_load_prev_randao}
use load_reth.Chain.Types.{LoadChainSpec, Hardfork, load_max_blob_count}
use load_reth.Payload.Attributes.{LoadPayloadAttributes}
use load_reth.Payload.Built.{Bytes}
use load_reth.Payload.Execution.{LoadExecutionData, Alloy}

-- The reasons of this validator, with the numbers that their messages are formatted from.
pub data InvalidParams : Type 0 where
  bad_prev_randao : InvalidParams
  too_many_hashes : ℕ → InvalidParams
  prague_not_active : ℕ → InvalidParams

-- `upstream` stands for the errors that only reth's own checks raise.
pub data EngineObjectValidationError : Type 0 where
  invalid_params : InvalidParams → EngineObjectValidationError
  unsupported_fork : EngineObjectValidationError
  upstream : String → EngineObjectValidationError

pub data NewPayloadError : Type 0 where
  other : EngineObjectValidationError → NewPayloadError
  payload : String → NewPayloadError

pub data EngineApiMessageVersion : Type 0 where
  version_1 version_2 version_3 version_4 version_5 : EngineApiMessageVersion

pub data PayloadOrAttributes (S : Type 0) : Type 0 where
  execution_payload : LoadExecutionData S → PayloadOrAttributes S
  payload_attributes : LoadPayloadAttributes → PayloadOrAttributes S

-- The two checks of reth that the validator goes on to.
pub record RethChecks (S Block : Type 0) : Type 0 where
  pub version_specific_fields :
      LoadChainSpec
      → EngineApiMessageVersion
      → PayloadOrAttributes S
      → Result EngineObjectValidationError (Unit {0})
  pub well_formed_payload : LoadExecutionData S → Result NewPayloadError Block

unfoldable pub check_hashes : Option (List B256) → Result EngineObjectValidationError (Unit {0})
check_hashes none = ok tt
check_hashes (some hashes) =
    if ltb load_max_blob_count (length hashes)
    then err (invalid_params (too_many_hashes (length hashes)))
    else ok tt

unfoldable pub check_prev_randao : B256 → Result EngineObjectValidationError (Unit {0})
check_prev_randao b = if is_load_prev_randao b then ok tt else err (invalid_params bad_prev_randao)

unfoldable pub check_requests :
    Bool → ℕ → Option (List Bytes) → Result EngineObjectValidationError (Unit {0})
check_requests prague_active timestamp requests =
    if not prague_active && is_some requests
    then err (invalid_params (prague_not_active timestamp))
    else ok tt

module _ {S : Type 0} (a : Alloy S) (spec : LoadChainSpec) where
  unfoldable pub ensure_load_payload_invariants :
      LoadExecutionData S → Result EngineObjectValidationError (Unit {0})
  ensure_load_payload_invariants p = do
    let prague_active = spec.inner.active Hardfork.prague (a.timestamp p.inner.payload)
    check_prev_randao (a.prev_randao p.inner.payload)
    check_hashes (a.versioned_hashes p.inner.sidecar)
    check_requests prague_active (a.timestamp p.inner.payload) (a.requests_of p.inner.sidecar)

  -- The two `if let` of `validate_version_specific_fields`.
  unfoldable pub check_payload_or_attributes :
      PayloadOrAttributes S → Result EngineObjectValidationError (Unit {0})
  check_payload_or_attributes (execution_payload p) = ensure_load_payload_invariants p
  check_payload_or_attributes (payload_attributes attrs) = check_prev_randao attrs.inner.prev_randao

module _ {S Block : Type 0} (a : Alloy S) (r : RethChecks S Block) (spec : LoadChainSpec) where
  unfoldable pub convert_payload_to_block : LoadExecutionData S → Result NewPayloadError Block
  convert_payload_to_block p = do
    map_err other (ensure_load_payload_invariants a spec p)
    r.well_formed_payload p

  unfoldable pub validate_version_specific_fields :
      EngineApiMessageVersion
      → PayloadOrAttributes S
      → Result EngineObjectValidationError (Unit {0})
  validate_version_specific_fields version payload_or_attrs = do
    check_payload_or_attributes a spec payload_or_attrs
    r.version_specific_fields spec version payload_or_attrs

  unfoldable pub ensure_well_formed_attributes :
      EngineApiMessageVersion
      → LoadPayloadAttributes
      → Result EngineObjectValidationError (Unit {0})
  ensure_well_formed_attributes version attributes = do
    check_prev_randao attributes.inner.prev_randao
    r.version_specific_fields spec version (payload_attributes attributes)
