-- ===== src/Cycle/Request.antt =====
-- From the attributes of a forkchoiceUpdatedV3 to a payload.
use load_reth.Common.{ℕ, ◌≡◌, ◌≢◌, refl, ◌∙◌, ◌<◌, Option, some, ok, err, inl, inr}
use load_reth.Prevrandao.{load_prevrandao}
use load_reth.Chain.Types.{LoadChainSpec, Upstream}
use load_reth.Payload.Attributes.{
  LoadPayloadAttributes, LoadPayloadBuilderAttributes, EthTryNew, TryNewLaws, try_new,
}
use load_reth.Payload.Admission.{try_new_iff, validate_payload_attributes_iff}
use load_reth.Payload.Built.{LoadBuiltPayload}
use load_reth.Payload.Execution.{Alloy}
use load_reth.Builder.Types.{Calls, IsFinite}
use load_reth.Builder.Rules.{asked_for}
use load_reth.Builder.Build.{Header, Node, BuilderConfig, next_env, default_load_payload}
use load_reth.Builder.Progress.{IsHealthy, Finishes, Yields, default_load_payload-Yields}
use load_reth.Validator.Defs.{invalid_params, bad_prev_randao}
use load_reth.Rpc.Types.{Answers, Engine, Server, engine_object_validation_error}
use load_reth.Rpc.Payloads.{fork_choice_updated_v3}
use load_reth.Rpc.Guards.{fork_choice_updated_v3_cases}

module _ {I B Block W S : Type 0} {T : Answers} (e : Engine W S T) (a : Alloy S) (u : Upstream)
    (c : Calls I B) (node : Node I B Block) (spec : LoadChainSpec) (config : BuilderConfig)
    {left : I → ℕ} (fin : IsFinite c left) (eth_try_new : EthTryNew) (laws : TryNewLaws eth_try_new)
    (parent : Header) (asked : LoadPayloadAttributes) (version : ℕ) where
  -- The builder's attributes that reth makes of those asked for, on the parent.
  abbrev pub taken : LoadPayloadBuilderAttributes
  taken = record { inner = eth_try_new parent.hash asked.inner version }

  -- Attributes with a timestamp after the parent's that forkchoiceUpdatedV3 does not refuse become
  -- builder attributes, and of these the builder on a healthy node makes a better payload, or aborts
  -- since the best payload so far is as good: what the Engine API lets through, the builder builds.
  pub fork_choice_updated_v3-default_load_payload :
      (state : T.ForkchoiceState) (s : Server W) (fuel : ℕ) (best : Option (LoadBuiltPayload Block))
      (start ready : B)
      → (fork_choice_updated_v3 e a state (some asked) s
          ≢ (err (engine_object_validation_error (invalid_params bad_prev_randao)), s))
      → parent.timestamp < asked.inner.timestamp
      → node.state_by_block_hash parent.hash ≡ ok tt
      → node.builder_for_next_block parent (next_env u c node spec config parent taken) ≡ ok start
      → node.apply_pre_execution_changes start ≡ ok ready
      → IsHealthy c (node.basefee start)
      → Finishes node
      → left (asked_for node start) < fuel
      → (try_new eth_try_new parent.hash asked version ≡ ok taken)
        × Yields u c node spec config parent taken best
            (default_load_payload u c node spec config fuel parent taken best)
  fork_choice_updated_v3-default_load_payload state s fuel best start ready passed later there begun
        prepared healthy finishing enough =
      (
        (try_new_iff eth_try_new parent.hash asked version taken laws).1 (fixed, refl),
        default_load_payload-Yields u c node spec config parent taken fin fuel best start ready
            ((validate_payload_attributes_iff parent.timestamp taken).1 (
              laws.prev_randao_kept parent.hash asked.inner version ∙ fixed,
              rw (laws.timestamp_kept parent.hash asked.inner version) later,
            ))
            there begun prepared healthy finishing enough,
      )
    where
      fixed : asked.inner.prev_randao ≡ load_prevrandao
      fixed = elim (fork_choice_updated_v3_cases e a state (some asked) s) [
        | inl (same, _) ↦ same
        | inr (_, refused) ↦ absurd (passed refused)
      ]
