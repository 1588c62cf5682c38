-- ===== src/Builder/Tests.antt =====
-- A build of a block of two blob transactions.
use load_reth.Common.{ℕ, ◌≡◌, refl, Option, none, some, List, [], ok}
use load_reth.Prevrandao.{load_prevrandao, is_load_prev_randao, slice_eq}
use load_reth.Chain.Spec.{load_blob_params}
use load_reth.Chain.Tests.{reth}
use load_reth.Payload.Attributes.{validate_payload_attributes, validate_prev_randao}
use load_reth.Payload.Built.{LoadBuiltPayload, Conversions, EnvelopeV3, try_into_v3}
use load_reth.Builder.Types.{Tx}
use load_reth.Builder.Build.{
  build_empty_payload, BuildOutcome, better, builder_config, compute_load_blob_cap, limits_of, seal,
  conclude_build, first_state, next_env, default_load_payload,
}
use load_reth.Builder.Loop.{
  select, round, turn, turn_live, choose_sidecar, pick_sidecar, proceed, execute, conclude, commit,
  resume, full_of_blobs, skip,
}
use load_reth.Builder.Rules.{IsLoadBlock}
use load_reth.Builder.Block.{default_load_payload-IsLoadBlock}
use load_reth.Builder.Envelope.{default_load_payload-try_into_v3}
use load_reth.Builder.Sample.{
  calls, node, call_laws, node_laws, push_laws, spec, config, parent, attrs, pool_laws,
  before_osaka, payload,
}

built : default_load_payload reth calls node spec config 3 parent attrs none ≡ ok (better payload)
unfolding default_load_payload validate_payload_attributes validate_prev_randao is_load_prev_randao
    slice_eq load_prevrandao select round turn turn_live choose_sidecar pick_sidecar proceed execute
    conclude commit resume full_of_blobs skip seal conclude_build limits_of first_state next_env
    compute_load_blob_cap load_blob_params builder_config
built = refl

default_load_payload-IsLoadBlock_example :
    IsLoadBlock reth calls node spec config parent attrs payload
default_load_payload-IsLoadBlock_example =
    default_load_payload-IsLoadBlock reth calls node spec config call_laws node_laws parent attrs
      pool_laws 3 none payload built

abbrev conversions : Conversions (List (Tx × ℕ)) (List (Tx × ℕ)) Unit Unit
conversions = record {
  hash = λ block. [];
  from_block_unchecked = λ hash block. block;
  bundle_empty = record { commitments = []; proofs = []; blobs = [] };
  bundle_from = λ l. record { commitments = []; proofs = []; blobs = [] };
  to_v4 = λ p. ok tt;
  to_v5 = λ p. ok tt;
}

default_load_payload-try_into_v3_example :
    (env : EnvelopeV3 (List (Tx × ℕ))) × (try_into_v3 conversions payload ≡ ok env)
    × (env.execution_payload ≡ payload.inner.block)
    × (env.block_value ≡ 84_000)
default_load_payload-try_into_v3_example =
    default_load_payload-try_into_v3 reth calls node spec config conversions push_laws call_laws
      node_laws parent attrs pool_laws before_osaka 3 none payload built

abbrev taken : BuildOutcome (List (Tx × ℕ)) → Option (LoadBuiltPayload (List (Tx × ℕ)))
taken (better q) = some q
taken (BuildOutcome.aborted fees) = none
taken BuildOutcome.cancelled = none

taken_better :
    (o : BuildOutcome (List (Tx × ℕ))) (q : LoadBuiltPayload (List (Tx × ℕ)))
    → taken o ≡ some q
    → o ≡ better q
taken_better (better q') q h = cc
taken_better (BuildOutcome.aborted fees) q h = cc
taken_better BuildOutcome.cancelled q h = cc

built_empty : build_empty_payload reth calls node spec config taken 3 parent attrs ≡ ok payload
unfolding build_empty_payload
built_empty = rw built refl
