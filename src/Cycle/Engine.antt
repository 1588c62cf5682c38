-- ===== src/Cycle/Engine.antt =====
-- What is relied on of reth's engine around the payload builder, and one slot of a node.
use load_reth.Common.{false, ℕ, ◌-◌, ◌≡◌, refl, Option, none, some, List, Result, ok}
use load_reth.Prevrandao.{B256}
use load_reth.Chain.Types.{LoadChainSpec, Upstream, Hardfork}
use load_reth.Payload.Attributes.{
  LoadPayloadAttributes, LoadPayloadBuilderAttributes, EthTryNew, try_new,
}
use load_reth.Payload.Built.{Bytes, LoadBuiltPayload, Conversions, try_into_v4}
use load_reth.Payload.Envelopes.{FitsEnvelope}
use load_reth.Payload.Execution.{ExecutionPayloadV3, requests, Alloy, LoadExecutionData, data_v4}
use load_reth.Validator.Defs.{
  RethChecks, version_3, version_4, execution_payload, payload_attributes, convert_payload_to_block,
  validate_version_specific_fields,
}
use load_reth.Builder.Types.{Calls}
use load_reth.Builder.Build.{Header, Node, BuilderConfig, better, default_load_payload}
use load_reth.Builder.Rules.{IsLoadBlock}
use load_reth.Rpc.Metrics.{LoadEngineRpcMetrics}
use load_reth.Rpc.Types.{EngineApiError, Answers, Engine, Server, timed}
use load_reth.Rpc.Payloads.{fork_choice_updated_v3, get_payload_v4, new_payload_v4}
use load_reth.Cycle.Blocks.{Reading}

-- What is read of reth's engine and its payload store: the head that a forkchoice state names,
-- whether the engine has imported that head and can build on it (else it answers SYNCING), the
-- identifier in an answer, a job's attributes with its best payload, what a V4 envelope holds, the
-- answers for an envelope and for a valid block, and the root of the beacon block that a block
-- names.
pub record EngineView (W Block Env4 : Type 0) (T : Answers) : Type 1 where
  pub head : T.ForkchoiceState → Header
  pub HasHead : W → Header → Type 0
  pub payload_id : T.ForkchoiceUpdated → Option ℕ
  pub job : W → ℕ → Option (LoadPayloadBuilderAttributes × LoadBuiltPayload Block)
  pub body : Env4 → ExecutionPayloadV3
  pub execution_requests : Env4 → List Bytes
  pub envelope : Env4 → T.Envelope version_4
  pub valid : Block → T.PayloadStatus
  pub beacon_root : Block → B256

module _ {I B Block Env4 Env5 W S : Type 0} {T : Answers} (u : Upstream) (c : Calls I B)
    (node : Node I B Block) (spec : LoadChainSpec) (config : BuilderConfig)
    (conv : Conversions Block ExecutionPayloadV3 Env4 Env5) (e : Engine W S T) (a : Alloy S)
    (r : RethChecks S Block) (read : Reading Block) (eth_try_new : EthTryNew)
    (view : EngineView W Block Env4 T) (fuel : ℕ) where
  -- The data of newPayloadV4 for a block with its requests.
  abbrev pub submitted : Block → List Bytes → LoadExecutionData S
  submitted b reqs =
      data_v4 a (conv.from_block_unchecked (conv.hash b) b) (read.blob_versioned_hashes b)
        (view.beacon_root b) (requests reqs)

  -- reth's promises on its engine. On a head that it has, attributes that the validator and
  -- `try_new` take start a job, which keeps the payload that the builder gives. The V4 conversion
  -- takes a payload without cell proofs, and keeps its body and its requests; before Osaka getPayload
  -- hands out a job's payload in that form. Neither call loses the head. A block that a builder has
  -- finished is read back from its body, in the form that belongs to its fork; and newPayload calls a
  -- block valid that the node's own builder has finished on a head that the engine has, if the
  -- validator takes it.
  pub record EngineLaws : Type 0 where
    pub starts_job :
        (state : T.ForkchoiceState) (asked : LoadPayloadAttributes) (w : W)
        (attrs : LoadPayloadBuilderAttributes) (p : LoadBuiltPayload Block)
        → view.HasHead w (view.head state)
        → validate_version_specific_fields a r spec version_3 (payload_attributes asked) ≡ ok tt
        → try_new eth_try_new (view.head state).hash asked 3 ≡ ok attrs
        → default_load_payload u c node spec config fuel (view.head state) attrs none
          ≡ ok (better p)
        → (upd : T.ForkchoiceUpdated) × (id : ℕ) × ((e.fork_choice_updated_metered version_3 state
              (some asked)
              w).0
            ≡ ok upd)
          × (view.payload_id upd ≡ some id)
          × (view.job (e.fork_choice_updated_metered version_3 state (some asked) w).1 id
              ≡ some (attrs, p))
          × view.HasHead
              (e.fork_choice_updated_metered version_3 state (some asked) w).1
              (view.head state)
    pub converts :
        (p : LoadBuiltPayload Block) (reqs : List Bytes)
        → FitsEnvelope p.inner.sidecars
        → p.inner.requests ≡ some reqs
        → (env : Env4) × (conv.to_v4 p.inner ≡ ok env)
          × (view.body env ≡ conv.from_block_unchecked (conv.hash p.inner.block) p.inner.block)
          × (view.execution_requests env ≡ reqs)
    pub hands_out :
        (w : W) (id : ℕ) (attrs : LoadPayloadBuilderAttributes) (p : LoadBuiltPayload Block)
        (env : Env4)
        → view.job w id ≡ some (attrs, p)
        → spec.inner.active Hardfork.osaka attrs.inner.timestamp ≡ false
        → try_into_v4 conv p ≡ ok env
        → (e.get_payload_metered version_4 id w).0 ≡ ok (view.envelope env)
    pub keeps_head :
        (w : W) (id : ℕ) (h : Header)
        → view.HasHead w h
        → view.HasHead (e.get_payload_metered version_4 id w).1 h
    pub reads_back :
        (last : B) (reqs : List Bytes) (b : Block)
        → node.finish last ≡ ok (reqs, b)
        → (r.well_formed_payload (submitted b reqs) ≡ ok b)
          × (r.version_specific_fields spec version_4 (execution_payload (submitted b reqs))
              ≡ ok tt)
    pub accepts :
        (parent : Header) (attrs : LoadPayloadBuilderAttributes) (p : LoadBuiltPayload Block)
        (is_block : IsLoadBlock u c node spec config parent attrs p) (w : W)
        → view.HasHead w parent
        → validate_version_specific_fields a r spec version_4
            (execution_payload (submitted p.inner.block is_block.requests))
          ≡ ok tt
        → convert_payload_to_block a r spec (submitted p.inner.block is_block.requests)
          ≡ ok p.inner.block
        → (e.new_payload_metered version_4 (submitted p.inner.block is_block.requests) w).0
          ≡ ok (view.valid p.inner.block)

  -- The three calls, one after the other on one server, and each of them a success: an identifier,
  -- the envelope of the payload `p` under it, and the verdict that its block is valid.
  pub record IsCompleted (state : T.ForkchoiceState) (asked : LoadPayloadAttributes) (s : Server W)
      (attrs : LoadPayloadBuilderAttributes) (p : LoadBuiltPayload Block) : Type 0 where
    pub upd : T.ForkchoiceUpdated
    pub id : ℕ
    pub env : Env4
    pub started : Server W
    pub fetched : Server W
    pub last : Server W
    pub fork_choice_updated : fork_choice_updated_v3 e a state (some asked) s ≡ (ok upd, started)
    pub identified : view.payload_id upd ≡ some id
    pub built : IsLoadBlock u c node spec config (view.head state) attrs p
    pub got_payload : get_payload_v4 e a id started ≡ (ok (view.envelope env), fetched)
    pub new_payload :
        new_payload_v4 e a
          (view.body env)
          (read.blob_versioned_hashes p.inner.block)
          (view.beacon_root p.inner.block)
          (requests (view.execution_requests env))
          fetched
        ≡ (ok (view.valid p.inner.block), last)

pub timed-ok :
    {W A : Type 0} (now : W → ℕ) (sample : LoadEngineRpcMetrics → ℕ → LoadEngineRpcMetrics)
    (call : W → Result EngineApiError A × W) (s : Server W) {x : A}
    → (call s.world).0 ≡ ok x
    → timed now sample call s ≡ (
      ok x,
      record {
        metrics = sample s.metrics (now (call s.world).1 - now s.world);
        world = (call s.world).1;
      },
    )
timed-ok now sample call s h = rw h refl
