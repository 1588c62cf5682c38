-- ===== src/Cycle/Grown.antt =====
-- A chain of two blocks, and one that the node makes on its own.
use load_reth.Common.{◌+◌, ◌≡◌, refl, ◌≤◌, none, some, [], ◌∷◌, ok, All}
use load_reth.Prevrandao.{is_load_prev_randao, load_prevrandao, slice_eq}
use load_reth.Chain.Blobs.{from_genesis_ok}
use load_reth.Chain.Spec.{load_blob_params}
use load_reth.Chain.Tests.{minimal, reth, reth_laws, minimal-IsLoadGenesis}
use load_reth.Payload.Attributes.{
  LoadPayloadBuilderAttributes, validate_payload_attributes, validate_prev_randao,
}
use load_reth.Payload.Built.{eip4844, LoadBuiltPayload}
use load_reth.Payload.Tests.{alloy}
use load_reth.Builder.Build.{
  Header, better, limits_of, default_load_payload, compute_load_blob_cap, next_env, first_state,
  seal, conclude_build, builder_config,
}
use load_reth.Builder.Loop.{
  select, round, turn, turn_live, choose_sidecar, pick_sidecar, proceed, execute, conclude, commit,
  resume, full_of_blobs, skip,
}
use load_reth.Builder.Sample.{sidecar, spec, config, parent, attrs}
use load_reth.Cycle.Growth.{Extends, ended, grown, Ascends, IsAccepted, Extends-Ascends}
use load_reth.Cycle.Tests.{Block, reading, from_block_unchecked, checks}
use load_reth.Cycle.Devnet.{
  dev_calls, sealed_body, header, block_env, dev_node, dev_call_laws, dev_node_laws, dev_seals,
  dev_headers, dev_payloads, dev_pool,
}

abbrev later_attrs : LoadPayloadBuilderAttributes
later_attrs = record attrs { inner = record attrs.inner { timestamp = 14 } }

-- The payload of the two blob transactions for the attributes on the header.
abbrev built_on : Header → LoadPayloadBuilderAttributes → LoadBuiltPayload Block
unfolding next_env
built_on parent attrs = record {
  inner = record {
    id = 3;
    block = (
      sealed_body (record {
        env = next_env reth dev_calls dev_node spec config parent attrs;
        number = parent.number + 1;
        txs = [];
      }),
      (1 ∷ []) ∷ (1 ∷ []) ∷ [],
    );
    fees = 84_000;
    sidecars = eip4844 (sidecar ∷ sidecar ∷ []);
    requests = some [];
  };
}

abbrev first : LoadBuiltPayload Block
first = built_on parent attrs

abbrev second : LoadBuiltPayload Block
second = built_on (header first.inner.block) later_attrs

first_built :
    default_load_payload reth dev_calls dev_node spec config 3 parent attrs none ≡ ok (better first)
unfolding default_load_payload validate_payload_attributes validate_prev_randao is_load_prev_randao
    slice_eq load_prevrandao select round turn turn_live choose_sidecar pick_sidecar proceed execute
    conclude commit resume full_of_blobs skip seal conclude_build limits_of first_state next_env
    compute_load_blob_cap load_blob_params builder_config
first_built = refl

second_built :
    default_load_payload reth dev_calls dev_node spec config 3
      (header first.inner.block)
      later_attrs
      none
    ≡ ok (better second)
unfolding default_load_payload validate_payload_attributes validate_prev_randao is_load_prev_randao
    slice_eq load_prevrandao select round turn turn_live choose_sidecar pick_sidecar proceed execute
    conclude commit resume full_of_blobs skip seal conclude_build limits_of first_state next_env
    compute_load_blob_cap load_blob_params builder_config
second_built = refl

two_blocks :
    Extends reth dev_calls dev_node spec config header
      (λ _ _. Unit)
      parent
      (first.inner.block ∷ second.inner.block ∷ [])
      (header second.inner.block)
two_blocks =
    grown attrs 3 none first tt first_built (grown later_attrs 3 none second tt second_built ended)

Extends-Ascends_example :
    Ascends reth dev_calls dev_node spec config header parent
      (first.inner.block ∷ second.inner.block ∷ [])
      (header second.inner.block)
    × (12 ≤ 14)
    × (6 ≡ 4 + 2)
    × All
        (IsAccepted reth dev_calls dev_node spec config alloy checks reading
          (λ d. d.env.prev_randao)
          from_block_unchecked
          dev_call_laws
          dev_node_laws
          dev_seals
          dev_payloads
          minimal
          reth_laws
          (from_genesis_ok reth minimal minimal-IsLoadGenesis)
          header
          block_env
          dev_headers
          (dev_pool _))
        (first.inner.block ∷ second.inner.block ∷ [])
unfolding built_on
Extends-Ascends_example =
    Extends-Ascends reth dev_calls dev_node spec config alloy checks reading
      (λ d. d.env.prev_randao) from_block_unchecked dev_call_laws dev_node_laws dev_seals
      dev_payloads minimal reth_laws (from_genesis_ok reth minimal minimal-IsLoadGenesis) header
      block_env dev_headers (dev_pool _) two_blocks
