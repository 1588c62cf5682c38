-- ===== src/Cycle/Requested.antt =====
-- A forkchoiceUpdatedV3 with attributes, and the block of the healthy node for them.
use load_reth.Common.{◌≡◌, ◌≢◌, refl, none, some, [], ok, err, arith}
use load_reth.Prevrandao.{is_load_prev_randao, slice_eq, load_prevrandao}
use load_reth.Chain.Tests.{reth}
use load_reth.Payload.Attributes.{try_new}
use load_reth.Payload.Tests.{alloy, asked, eth_try_new, try_new_laws}
use load_reth.Validator.Defs.{invalid_params, bad_prev_randao}
use load_reth.Builder.Build.{default_load_payload}
use load_reth.Builder.Progress.{Yields}
use load_reth.Builder.Sample.{node, spec, config, parent}
use load_reth.Builder.Healthy.{paying, paying_finite, healthy, finishing}
use load_reth.Rpc.Types.{engine_object_validation_error, ensure_load_prev_randao}
use load_reth.Rpc.Payloads.{fork_choice_updated_v3, check_attributes}
use load_reth.Rpc.Tests.{engine, started}
use load_reth.Cycle.Request.{taken, fork_choice_updated_v3-default_load_payload}

passed :
    fork_choice_updated_v3 engine alloy 9 (some asked) started
    ≢ (err (engine_object_validation_error (invalid_params bad_prev_randao)), started)
unfolding fork_choice_updated_v3 check_attributes ensure_load_prev_randao is_load_prev_randao
    slice_eq load_prevrandao
passed h = cc

fork_choice_updated_v3-default_load_payload_example :
    (try_new eth_try_new parent.hash asked 3
      ≡ ok (
          taken engine alloy reth paying node spec config paying_finite eth_try_new try_new_laws
            parent asked 3))
    × Yields reth paying node spec config parent
        (taken engine alloy reth paying node spec config paying_finite eth_try_new try_new_laws
          parent asked 3)
        none
        (default_load_payload reth paying node spec config 3 parent
          (taken engine alloy reth paying node spec config paying_finite eth_try_new try_new_laws
            parent asked 3)
          none)
fork_choice_updated_v3-default_load_payload_example =
    fork_choice_updated_v3-default_load_payload engine alloy reth paying node spec config
      paying_finite eth_try_new try_new_laws parent asked 3 9 started 3 none [] [] passed
      (omega arith) refl refl refl healthy finishing (omega arith)
