-- ===== src/Cycle/Tests.antt =====
-- The block of two blob transactions, read as its body and its versioned hashes, through the validator and the Engine API.
use load_reth.Common.{
  ℕ, ◌≡◌, refl, sym, if◌then◌else◌, Bool-cases, inl, inr, none, some, List, [], ◌∷◌, Result, ok,
  true, err, arith, String,
}
use load_reth.Prevrandao.{
  B256, load_prevrandao, is_load_prev_randao, is_load_prev_randao_iff, slice_eq,
}
use load_reth.Chain.Blobs.{from_genesis_ok}
use load_reth.Chain.Spec.{load_blob_params}
use load_reth.Chain.Tests.{minimal, reth, reth_laws, minimal-IsLoadGenesis}
use load_reth.Payload.Attributes.{validate_payload_attributes, validate_prev_randao}
use load_reth.Payload.Built.{eip4844, LoadBuiltPayload}
use load_reth.Payload.Execution.{ExecutionPayloadV3, ExecutionPayload, v1, v2, v3, block_to_payload}
use load_reth.Payload.Tests.{Side, alloy}
use load_reth.Validator.Defs.{NewPayloadError, payload, RethChecks, convert_payload_to_block}
use load_reth.Validator.Tests.{body}
use load_reth.Builder.Types.{Tx, PoolLaws}
use load_reth.Builder.Build.{
  Node, NextBlockEnv, better, limits_of, default_load_payload, compute_load_blob_cap, next_env,
  first_state, seal, conclude_build, builder_config,
}
use load_reth.Builder.Loop.{
  select, round, turn, turn_live, choose_sidecar, pick_sidecar, proceed, execute, conclude, commit,
  resume, full_of_blobs, skip,
}
use load_reth.Builder.Rules.{NodeLaws}
use load_reth.Builder.Sample.{sidecar, calls, call_laws, handed_out, spec, config, parent, attrs}
use load_reth.Cycle.Blocks.{Reading, SealLaws, hashes_of}
use load_reth.Cycle.Validation.{PayloadLaws, convert_payload_to_block-block_to_payload}

abbrev pub Block : Type 0
Block = ExecutionPayloadV3 × List B256

-- A builder that starts with the constant randomness alone.
abbrev start : NextBlockEnv → Result String (List (Tx × ℕ))
start env =
    if is_load_prev_randao env.prev_randao then ok [] else err "the randomness of another network"

abbrev node : Node ℕ (List (Tx × ℕ)) Block
node = record {
  state_by_block_hash = λ hash. ok tt;
  builder_for_next_block = λ parent env. start env;
  gas_limit_toward = λ desired parent. desired;
  block_gas_limit = λ b. 2_000_000_000;
  basefee = λ b. 7;
  blob_gasprice = λ b. none;
  best_transactions = λ base_fee blob_fee. 2;
  apply_pre_execution_changes = λ b. ok [];
  is_better_payload = λ best fees. true;
  finish = λ b. ok ([], (body, hashes_of b));
  rlp_length = λ block. 0;
  withdrawals_length = λ l. 1;
  max_rlp_block_size = 8_388_608;
}

abbrev pub reading : Reading Block
reading = record {
  hash = λ block. [];
  mix_hash = λ block. block.0.payload_inner.payload_inner.prev_randao;
  blob_versioned_hashes = λ block. block.1;
}

abbrev pub from_block_unchecked : B256 → Block → ExecutionPayload × Side
from_block_unchecked hash block =
    (v3 block.0, some (record { parent_beacon_block_root = []; versioned_hashes = block.1 }, none))

abbrev pub block_of : ExecutionPayload → Side → Result NewPayloadError Block
block_of (v3 p) (some (c, r)) = ok (p, c.versioned_hashes)
block_of (v3 p) none = err (payload "no versioned hashes")
block_of (v1 p) side = err (payload "not Cancun")
block_of (v2 p) side = err (payload "not Cancun")

abbrev pub checks : RethChecks Side Block
checks = record {
  version_specific_fields = λ spec version o. ok tt;
  well_formed_payload = λ d. block_of d.inner.payload d.inner.sidecar;
}

node_laws : NodeLaws calls node
node_laws = record { starts_empty = λ b ready h. cc; gas_limit_u64 = λ b. omega arith }

started_fixed :
    (env : NextBlockEnv) (b : List (Tx × ℕ)) → start env ≡ ok b → load_prevrandao ≡ env.prev_randao
started_fixed env b h = elim (Bool-cases (is_load_prev_randao env.prev_randao)) [
  | inl same ↦ sym ((is_load_prev_randao_iff env.prev_randao).0 same)
  | inr unlike ↦ cc (rw unlike at h)
]

seal_laws : SealLaws calls node reading (λ b. load_prevrandao)
seal_laws = record {
  asked_for = λ parent env b h. started_fixed env b h;
  kept_by_preparation = λ b ready h. refl;
  kept_by_execution = λ b tx. refl;
  sealed_randao = λ b requests block h. cc;
  sealed_hashes = λ b requests block h. cc;
}

payload_laws : PayloadLaws node alloy checks reading from_block_unchecked
unfolding block_to_payload
payload_laws = record {
  same_randao = λ hash b. refl;
  same_hashes = λ hash b. refl;
  same_block = λ last requests b h. refl;
}

pool_laws : (b : List (Tx × ℕ)) → PoolLaws calls (limits_of reth calls node spec config attrs b)
unfolding limits_of compute_load_blob_cap
pool_laws b = record {
  gas_in_range = λ i tx rest h. rw ((handed_out i tx rest h).0) (omega arith);
  blobs_in_range = λ i tx rest h. rw ((handed_out i tx rest h).0) (omega arith);
}

abbrev built_payload : LoadBuiltPayload Block
built_payload = record {
  inner = record {
    id = 3;
    block = (body, (1 ∷ []) ∷ (1 ∷ []) ∷ []);
    fees = 84_000;
    sidecars = eip4844 (sidecar ∷ sidecar ∷ []);
    requests = some [];
  };
}

built :
    default_load_payload reth calls node spec config 3 parent attrs none ≡ ok (better built_payload)
unfolding default_load_payload validate_payload_attributes validate_prev_randao is_load_prev_randao
    slice_eq load_prevrandao select round turn turn_live choose_sidecar pick_sidecar proceed execute
    conclude commit resume full_of_blobs skip seal conclude_build limits_of first_state next_env
    compute_load_blob_cap load_blob_params builder_config
built = refl

convert_payload_to_block-block_to_payload_example :
    convert_payload_to_block alloy checks spec
      (block_to_payload reading.hash from_block_unchecked built_payload.inner.block)
    ≡ ok built_payload.inner.block
convert_payload_to_block-block_to_payload_example =
    convert_payload_to_block-block_to_payload reth calls node spec config alloy checks reading
      (λ b. load_prevrandao) from_block_unchecked call_laws node_laws seal_laws payload_laws minimal
      reth_laws (from_genesis_ok reth minimal minimal-IsLoadGenesis) parent attrs pool_laws 3 none
      built_payload built
