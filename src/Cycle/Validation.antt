-- ===== src/Cycle/Validation.antt =====
-- A block that the payload builder has made, given to the validator as a payload.
use load_reth.Common.{◌≡◌, Each, List, Option, none, some, ok, length, ◌≤◌, ◌∙◌, ℕ}
use load_reth.Prevrandao.{B256}
use load_reth.Chain.Types.{Genesis, LoadChainSpec, Upstream, UpstreamLaws, load_max_blob_count}
use load_reth.Chain.Spec.{from_genesis}
use load_reth.Chain.Blobs.{from_genesis-IsLoadSpec}
use load_reth.Payload.Attributes.{LoadPayloadBuilderAttributes}
use load_reth.Payload.Built.{Bytes, LoadBuiltPayload}
use load_reth.Payload.Execution.{ExecutionPayload, Alloy, block_to_payload}
use load_reth.Validator.Defs.{RethChecks, convert_payload_to_block}
use load_reth.Validator.Acceptance.{IsLoadPayload, convert_payload_to_block_iff}
use load_reth.Builder.Types.{Calls, CallLaws, PoolLaws}
use load_reth.Builder.Build.{Header, Node, BuilderConfig, better, limits_of, default_load_payload}
use load_reth.Builder.Rules.{NodeLaws, IsLoadBlock}
use load_reth.Builder.Block.{default_load_payload-IsLoadBlock}
use load_reth.Cycle.Blocks.{Reading, SealLaws, mix_hash_fixed, few_hashes}

-- What alloy and reth document of a block that is turned into a payload: the payload has the
-- block's randomness, the sidecar its versioned hashes if any, and of a block that a builder has
-- finished reth makes the same block again.
pub record PayloadLaws {I B Block S : Type 0} (node : Node I B Block) (a : Alloy S)
    (r : RethChecks S Block) (read : Reading Block)
    (from_block_unchecked : B256 → Block → ExecutionPayload × S) : Type 0 where
  pub same_randao :
      (hash : B256) (b : Block) → a.prev_randao (from_block_unchecked hash b).0 ≡ read.mix_hash b
  pub same_hashes :
      (hash : B256) (b : Block)
      → Each
          (λ hashes. hashes ≡ read.blob_versioned_hashes b)
          (a.versioned_hashes (from_block_unchecked hash b).1)
  pub same_block :
      (last : B) (requests : List Bytes) (b : Block)
      → node.finish last ≡ ok (requests, b)
      → r.well_formed_payload (block_to_payload read.hash from_block_unchecked b) ≡ ok b

few :
    (l : List B256) (o : Option (List B256))
    → Each (λ hashes. hashes ≡ l) o
    → length l ≤ load_max_blob_count
    → Each (λ hashes. length hashes ≤ load_max_blob_count) o
few l none same small = tt
few l (some hashes) same small = rw same small

always : {A : Type 0} {P : Type 0} (o : Option A) → P → Each (λ _. P) o
always none h = tt
always (some a) h = h

module _ {I B Block S : Type 0} (u : Upstream) (c : Calls I B) (node : Node I B Block)
    (spec : LoadChainSpec) (config : BuilderConfig) (a : Alloy S) (r : RethChecks S Block)
    (read : Reading Block) (prev_randao : B → B256)
    (from_block_unchecked : B256 → Block → ExecutionPayload × S) (laws : CallLaws c)
    (node_laws : NodeLaws c node) (seals : SealLaws c node read prev_randao)
    (payloads : PayloadLaws node a r read from_block_unchecked) (g : Genesis)
    (u_laws : UpstreamLaws u) (made : from_genesis u g ≡ ok spec) (parent : Header)
    (attrs : LoadPayloadBuilderAttributes)
    (pool : (b : B) → PoolLaws c (limits_of u c node spec config attrs b)) where
  block_to_payload-IsLoadPayload :
      (p : LoadBuiltPayload Block)
      → IsLoadBlock u c node spec config parent attrs p
      → IsLoadPayload a spec (block_to_payload read.hash from_block_unchecked p.inner.block)
  unfolding block_to_payload
  block_to_payload-IsLoadPayload p is_block = record {
    fixed_randao =
        payloads.same_randao _ p.inner.block
        ∙ mix_hash_fixed read prev_randao seals parent attrs p is_block;
    few_hashes =
        few _ _ (payloads.same_hashes _ p.inner.block)
          (few_hashes read prev_randao seals parent attrs p is_block);
    requests_after_prague =
        always _ ((from_genesis-IsLoadSpec u g spec _ u_laws made).prague_active);
  }

  -- On a specification that `from_genesis` has made, with any pool, parent and fuel: the block of
  -- every better payload of `default_load_payload`, turned into execution data, is turned back into
  -- the same block by the validator. So the rules that the Load Network adds to the validation
  -- refuse no block that its builder makes, in any fork.
  pub convert_payload_to_block-block_to_payload :
      (fuel : ℕ) (best_payload : Option (LoadBuiltPayload Block)) (p : LoadBuiltPayload Block)
      → default_load_payload u c node spec config fuel parent attrs best_payload ≡ ok (better p)
      → convert_payload_to_block a r spec
          (block_to_payload read.hash from_block_unchecked p.inner.block)
        ≡ ok p.inner.block
  convert_payload_to_block-block_to_payload fuel best_payload p built =
      (convert_payload_to_block_iff a r spec
          (block_to_payload read.hash from_block_unchecked p.inner.block) p.inner.block).1
        (
          block_to_payload-IsLoadPayload p is_block,
          payloads.same_block is_block.last is_block.requests p.inner.block is_block.finished,
        )
    where
      is_block : IsLoadBlock u c node spec config parent attrs p
      is_block =
          default_load_payload-IsLoadBlock u c node spec config laws node_laws parent attrs pool
            fuel best_payload p built
