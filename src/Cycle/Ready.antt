-- ===== src/Cycle/Ready.antt =====
-- What a node needs to build on a header.
use load_reth.Common.{ℕ, suc, arith, subst, ◌≡◌, ◌<◌, inl, inr, none, Result, ok, true}
use load_reth.Prevrandao.{load_prevrandao}
use load_reth.Chain.Types.{LoadChainSpec, Upstream}
use load_reth.Payload.Attributes.{LoadPayloadBuilderAttributes}
use load_reth.Payload.Admission.{validate_payload_attributes_iff}
use load_reth.Payload.Built.{LoadBuiltPayload}
use load_reth.Builder.Types.{Calls, IsFinite}
use load_reth.Builder.Rules.{asked_for}
use load_reth.Builder.Build.{
  Header, NextBlockEnv, Node, BuilderConfig, BuildOutcome, BuildFailure, better, next_env,
  default_load_payload,
}
use load_reth.Builder.Progress.{IsHealthy, Finishes, Yields, default_load_payload-Yields}

-- The node has the state of this header, and starts and prepares a builder on it for every
-- environment with the constant randomness and a later timestamp.
pub record IsReady {I B Block : Type 0} (node : Node I B Block) (parent : Header) : Type 0 where
  pub state_there : node.state_by_block_hash parent.hash ≡ ok tt
  pub starts :
      (env : NextBlockEnv)
      → env.prev_randao ≡ load_prevrandao
      → parent.timestamp < env.timestamp
      → (start : B) × (ready : B) × (node.builder_for_next_block parent env ≡ ok start)
        × (node.apply_pre_execution_changes start ≡ ok ready)

-- The node is healthy: what its builders execute succeeds or fails on its own, and their blocks
-- finish within the size limit. Any fees are an improvement on no payload.
pub record IsAlive {I B Block : Type 0} (c : Calls I B) (node : Node I B Block) : Type 0 where
  pub healthy : (b : B) → IsHealthy c (node.basefee b)
  pub finishing : Finishes node
  pub improves_none : (fees : ℕ) → node.is_better_payload none fees ≡ true

module _ {I B Block : Type 0} (u : Upstream) (c : Calls I B) (node : Node I B Block)
    (spec : LoadChainSpec) (config : BuilderConfig) {left : I → ℕ} (fin : IsFinite c left)
    (alive : IsAlive c node) (parent : Header) (ready : IsReady node parent)
    (attrs : LoadPayloadBuilderAttributes) where
  surely_better :
      {r : Result BuildFailure (BuildOutcome Block)}
      → Yields u c node spec config parent attrs none r
      → (p : LoadBuiltPayload Block) × (r ≡ ok (better p))
  surely_better (inl found) = found
  surely_better (inr (fees, _, worse)) = absurd (cc (alive.improves_none fees))

  -- On a header that it is ready for, an alive node makes a better payload of every attributes that
  -- are allowed there.
  pub better_there :
      (fuel : ℕ)
      → ((b : B)
          → node.builder_for_next_block parent (next_env u c node spec config parent attrs) ≡ ok b
          → left (asked_for node b) < fuel)
      → attrs.inner.prev_randao ≡ load_prevrandao
      → parent.timestamp < attrs.inner.timestamp
      → (p : LoadBuiltPayload Block) × (default_load_payload u c node spec config fuel parent attrs
            none
          ≡ ok (better p))
  unfolding next_env
  better_there fuel enough fixed later =
      let (start, prepared, begun, changed) =
        ready.starts (next_env u c node spec config parent attrs) fixed later in
      surely_better (
        default_load_payload-Yields u c node spec config parent attrs fin fuel none start prepared
          ((validate_payload_attributes_iff parent.timestamp attrs).1 (fixed, later))
          ready.state_there begun changed (alive.healthy start) alive.finishing
          (enough start begun))

  -- The same, with as much fuel as the pool asks for.
  pub better_once :
      attrs.inner.prev_randao ≡ load_prevrandao
      → parent.timestamp < attrs.inner.timestamp
      → (fuel : ℕ) × (p : LoadBuiltPayload Block) × (default_load_payload u c node spec config fuel
            parent attrs none
          ≡ ok (better p))
  unfolding next_env
  better_once fixed later =
      let (start, _, begun, _) =
        ready.starts (next_env u c node spec config parent attrs) fixed later in
      let (p, built) =
        better_there (suc (left (asked_for node start)))
          (λ b h.
            subst (λ x. left (asked_for node x) < suc (left (asked_for node start))) {x = start}
              {y = b} (cc) (omega arith))
          fixed later in
      (suc (left (asked_for node start)), p, built)
