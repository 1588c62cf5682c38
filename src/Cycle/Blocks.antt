-- ===== src/Cycle/Blocks.antt =====
-- The randomness and the versioned hashes of a block that the payload builder has made.
use load_reth.Common.{
  ℕ, ◌≡◌, refl, ◌≤◌, Option, none, some, List, [], ◌∷◌, ◌++◌, length, length-append, ok, arith,
  sum_of, ◌∙◌,
}
use load_reth.Prevrandao.{B256, load_prevrandao}
use load_reth.Chain.Types.{LoadChainSpec, Upstream, load_max_blob_count}
use load_reth.Payload.Attributes.{LoadPayloadBuilderAttributes}
use load_reth.Payload.Built.{Bytes, LoadBuiltPayload}
use load_reth.Builder.Types.{Tx, Calls, hash_count}
use load_reth.Builder.Totals.{blobs}
use load_reth.Builder.Reaches.{Reaches-kept}
use load_reth.Builder.Build.{Header, NextBlockEnv, Node, BuilderConfig, next_env}
use load_reth.Builder.Rules.{IsLoadBlock}

abbrev hash_list : Option (List B256) → List B256
hash_list none = []
hash_list (some hashes) = hashes

-- The versioned hashes of a list of transactions, in their order.
abbrev pub hashes_of : List (Tx × ℕ) → List B256
hashes_of [] = []
hashes_of ((tx, gas) ∷ rest) = hash_list tx.blob_versioned_hashes ++ hashes_of rest

-- What is read of a sealed block: its `mix_hash`, and the hashes of its blob transactions.
pub record Reading (Block : Type 0) : Type 0 where
  pub hash : Block → B256
  pub mix_hash : Block → B256
  pub blob_versioned_hashes : Block → List B256

-- reth's promises on the builder of a block, of which `prev_randao` reads the block environment: it
-- has the randomness that it was asked for, no call changes that, and the block that it finishes
-- carries it and the blobs of the transactions executed.
pub record SealLaws {I B Block : Type 0} (c : Calls I B) (node : Node I B Block)
    (read : Reading Block) (prev_randao : B → B256) : Type 0 where
  pub asked_for :
      (parent : Header) (env : NextBlockEnv) (b : B)
      → node.builder_for_next_block parent env ≡ ok b
      → prev_randao b ≡ env.prev_randao
  pub kept_by_preparation :
      (b ready : B)
      → node.apply_pre_execution_changes b ≡ ok ready
      → prev_randao ready ≡ prev_randao b
  pub kept_by_execution :
      (b : B) (tx : Tx) → prev_randao (c.execute_transaction b tx).1 ≡ prev_randao b
  pub sealed_randao :
      (b : B) (requests : List Bytes) (block : Block)
      → node.finish b ≡ ok (requests, block)
      → read.mix_hash block ≡ prev_randao b
  pub sealed_hashes :
      (b : B) (requests : List Bytes) (block : Block)
      → node.finish b ≡ ok (requests, block)
      → read.blob_versioned_hashes block ≡ hashes_of (c.transactions b)

length-hash_list : (o : Option (List B256)) → length (hash_list o) ≡ hash_count o
length-hash_list none = refl
length-hash_list (some hashes) = refl

length-hashes_of : (xs : List (Tx × ℕ)) → length (hashes_of xs) ≡ sum_of blobs xs
length-hashes_of [] = refl
length-hashes_of ((tx, gas) ∷ rest) = omega (
  arith,
  length-append (hash_list tx.blob_versioned_hashes) (hashes_of rest),
  length-hash_list tx.blob_versioned_hashes,
  length-hashes_of rest,
)

module _ {I B Block : Type 0} {u : Upstream} {c : Calls I B} {node : Node I B Block}
    {spec : LoadChainSpec} {config : BuilderConfig} (read : Reading Block) (prev_randao : B → B256)
    (seals : SealLaws c node read prev_randao) (parent : Header)
    (attrs : LoadPayloadBuilderAttributes) (p : LoadBuiltPayload Block)
    (is_block : IsLoadBlock u c node spec config parent attrs p) where
  pub mix_hash_fixed : read.mix_hash p.inner.block ≡ load_prevrandao
  unfolding next_env
  mix_hash_fixed =
      seals.sealed_randao is_block.last is_block.requests p.inner.block is_block.finished
      ∙ Reaches-kept c.execute_transaction prev_randao seals.kept_by_execution is_block.reached
      ∙ seals.kept_by_preparation is_block.start is_block.ready is_block.prepared
      ∙ seals.asked_for parent _ is_block.start is_block.started
      ∙ is_block.fixed_randao

  pub few_hashes : length (read.blob_versioned_hashes p.inner.block) ≤ load_max_blob_count
  few_hashes =
      rw (seals.sealed_hashes is_block.last is_block.requests p.inner.block is_block.finished)
        (omega (arith, length-hashes_of (c.transactions is_block.last), is_block.blobs_capped_1024))
