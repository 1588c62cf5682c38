-- ===== src/Cycle/Submission.antt =====
-- A payload that the builder has made, handed out by getPayload and submitted by newPayload.
use load_reth.Common.{◌≡◌, Option, ok, false, ◌∙◌, ℕ}
use load_reth.Prevrandao.{B256}
use load_reth.Chain.Types.{LoadChainSpec, Upstream, Hardfork}
use load_reth.Payload.Attributes.{LoadPayloadBuilderAttributes}
use load_reth.Payload.Built.{LoadBuiltPayload, Conversions, EnvelopeV3, try_into_v3}
use load_reth.Payload.Execution.{ExecutionPayloadV3, Alloy, data_v3}
use load_reth.Validator.Defs.{version_3}
use load_reth.Builder.Types.{Calls, CallLaws, PoolLaws}
use load_reth.Builder.Build.{Header, Node, BuilderConfig, better, limits_of, default_load_payload}
use load_reth.Builder.Rules.{NodeLaws, IsLoadBlock}
use load_reth.Builder.Block.{default_load_payload-IsLoadBlock}
use load_reth.Builder.Envelope.{PushLaws, default_load_payload-try_into_v3}
use load_reth.Rpc.Metrics.{record_new_payload}
use load_reth.Rpc.Types.{Answers, Engine, Server, payload_v3_prev_randao, timed}
use load_reth.Rpc.Payloads.{new_payload_v3}
use load_reth.Rpc.Refusals.{new_payload_v3_passes}
use load_reth.Cycle.Blocks.{Reading, SealLaws, mix_hash_fixed, few_hashes}

module _ {I B Block Env4 Env5 W S : Type 0} {T : Answers} (u : Upstream) (c : Calls I B)
    (node : Node I B Block) (spec : LoadChainSpec) (config : BuilderConfig)
    (conv : Conversions Block ExecutionPayloadV3 Env4 Env5) (e : Engine W S T) (a : Alloy S)
    (read : Reading Block) (prev_randao : B → B256) (pushes : PushLaws c) (laws : CallLaws c)
    (node_laws : NodeLaws c node) (seals : SealLaws c node read prev_randao)
    (same_randao : (hash : B256) (b : Block)
      → payload_v3_prev_randao (conv.from_block_unchecked hash b) ≡ read.mix_hash b)
    (parent : Header) (attrs : LoadPayloadBuilderAttributes)
    (pool : (b : B) → PoolLaws c (limits_of u c node spec config attrs b))
    (early : spec.inner.active Hardfork.osaka attrs.inner.timestamp ≡ false) where
  -- Before Osaka: a better payload of `default_load_payload` becomes a V3 envelope, and the
  -- envelope's body, submitted to newPayloadV3 with the versioned hashes of the block, passes both
  -- guards: the call is the engine's own on this body, with its sample. This is so for every pool,
  -- parent, fuel and state of the server.
  pub new_payload_v3-try_into_v3 :
      (fuel : ℕ) (best_payload : Option (LoadBuiltPayload Block)) (p : LoadBuiltPayload Block)
      (root : B256) (s : Server W)
      → default_load_payload u c node spec config fuel parent attrs best_payload ≡ ok (better p)
      → (env : EnvelopeV3 ExecutionPayloadV3) × (try_into_v3 conv p ≡ ok env)
        × (new_payload_v3 e a env.execution_payload
              (read.blob_versioned_hashes p.inner.block)
              root
              s
            ≡ timed e.now record_new_payload
                (e.new_payload_metered version_3
                  (data_v3 a env.execution_payload (read.blob_versioned_hashes p.inner.block) root))
                s)
  new_payload_v3-try_into_v3 fuel best_payload p root s built =
      let (env, done, body, _) =
        default_load_payload-try_into_v3 u c node spec config conv pushes laws node_laws parent
          attrs pool early fuel best_payload p built in
      (
        env,
        done,
        new_payload_v3_passes e a env.execution_payload (read.blob_versioned_hashes p.inner.block)
            root
            (
              few_hashes read prev_randao seals parent attrs p is_block,
              rw body (
                  same_randao _ p.inner.block
                  ∙ mix_hash_fixed read prev_randao seals parent attrs p is_block),
            )
            s,
      )
    where
      is_block : IsLoadBlock u c node spec config parent attrs p
      is_block =
          default_load_payload-IsLoadBlock u c node spec config laws node_laws parent attrs pool
            fuel best_payload p built
