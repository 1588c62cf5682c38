-- ===== src/Cycle/Devnet.antt =====
-- A node that can build on every header, with the pool of two blob transactions.
use load_reth.Common.{
  ℕ, ◌+◌, ◌≡◌, refl, ◌++◌, ◌<◌, ◌≤◌, Option, none, some, List, [], ◌∷◌, ok, err, Result,
  if◌then◌else◌, true, Bool, arith, length,
}
use load_reth.Prevrandao.{B256, slice_eq, slice_eq_iff}
use load_reth.Chain.Tests.{reth}
use load_reth.Payload.Attributes.{LoadPayloadBuilderAttributes}
use load_reth.Payload.Execution.{ExecutionPayloadV3, block_to_payload}
use load_reth.Payload.Tests.{alloy}
use load_reth.Validator.Tests.{body}
use load_reth.Builder.Types.{
  PayloadBuilderError, other, Tx, executed, invalid_tx, Calls, CallLaws, PoolLaws, IsFinite,
}
use load_reth.Builder.Build.{Header, NextBlockEnv, Node, limits_of, compute_load_blob_cap}
use load_reth.Builder.Rules.{NodeLaws}
use load_reth.Builder.Sample.{calls, call_laws, handed_out, spec, config}
use load_reth.Builder.Healthy.{paid, paying, healthy}
use load_reth.Cycle.Blocks.{SealLaws, hashes_of}
use load_reth.Cycle.Validation.{PayloadLaws}
use load_reth.Cycle.Growth.{BlockEnv, HeaderLaws}
use load_reth.Cycle.Ready.{IsReady, IsAlive}
use load_reth.Cycle.Local.{ImportLaws}
use load_reth.Cycle.Tests.{Block, reading, from_block_unchecked, checks}

-- A block that is being built.
pub record Draft : Type 0 where
  pub env : NextBlockEnv
  pub number : ℕ
  pub txs : List (Tx × ℕ)

abbrev pub dev_calls : Calls ℕ Draft
dev_calls = record {
  next = calls.next;
  mark_invalid = calls.mark_invalid;
  skip_blobs = calls.skip_blobs;
  execute_transaction = λ d tx. (
    (paying.execute_transaction d.txs tx).0,
    record d { txs = (paying.execute_transaction d.txs tx).1 },
  );
  transactions = λ d. d.txs;
  get_blob = calls.get_blob;
  push_sidecar_variant = calls.push_sidecar_variant;
  is_cancelled = calls.is_cancelled;
}

-- The body with the timestamp, the number and the randomness of the draft.
abbrev pub sealed_body : Draft → ExecutionPayloadV3
sealed_body d = record body {
  payload_inner = record body.payload_inner {
    payload_inner = record body.payload_inner.payload_inner {
      timestamp = d.env.timestamp;
      block_number = d.number;
      prev_randao = d.env.prev_randao;
    };
  };
}

abbrev pub header : Block → Header
header block = record {
  hash = block.0.payload_inner.payload_inner.block_number ∷ [];
  number = block.0.payload_inner.payload_inner.block_number;
  timestamp = block.0.payload_inner.payload_inner.timestamp;
  gas_limit = 2_000_000_000;
}

abbrev pub block_env : Draft → BlockEnv
block_env d = record { timestamp = d.env.timestamp; number = d.number }

-- The node with the states that `state` has.
abbrev pub node_with : (B256 → Result PayloadBuilderError (Unit {0})) → Node ℕ Draft Block
node_with state = record {
  state_by_block_hash = state;
  builder_for_next_block =
      λ parent env. ok (record { env = env; number = parent.number + 1; txs = [] });
  gas_limit_toward = λ desired parent. desired;
  block_gas_limit = λ b. 2_000_000_000;
  basefee = λ b. 7;
  blob_gasprice = λ b. none;
  best_transactions = λ base_fee blob_fee. 2;
  apply_pre_execution_changes = λ b. ok (record b { txs = [] });
  is_better_payload = λ best fees. true;
  finish = λ b. ok ([], (sealed_body b, hashes_of b.txs));
  rlp_length = λ block. 0;
  withdrawals_length = λ l. 1;
  max_rlp_block_size = 8_388_608;
}

-- The node with every state.
abbrev pub dev_node : Node ℕ Draft Block
dev_node = node_with (λ hash. ok tt)

-- The node that has the state of the header with this hash alone.
abbrev pub node_at : B256 → Node ℕ Draft Block
node_at known = node_with (λ hash. if slice_eq hash known then ok tt else err (other "no state"))

paid_laws :
    (b : List (Tx × ℕ)) (tx : Tx) (gas : ℕ) (tip : Option ℕ)
    → (paid b tx tip tx.blob_versioned_hashes).0 ≡ executed gas
    → ((paid b tx tip tx.blob_versioned_hashes).1 ≡ b ++ (tx, gas) ∷ [])
      × (gas ≤ tx.gas_limit)
      × ((hashes : List B256) → tx.blob_versioned_hashes ≡ some hashes → 0 < length hashes)
paid_laws b tx gas none h = cc
paid_laws b tx gas (some tip) h = (
  call_laws.block_grows b tx gas h,
  call_laws.gas_within_limit b tx gas h,
  λ hashes e. call_laws.blob_tx_has_blobs b tx gas hashes h e,
)

paid_kept :
    (b : List (Tx × ℕ)) (tx : Tx) (n : Bool) (tip : Option ℕ)
    → (paid b tx tip tx.blob_versioned_hashes).0 ≡ invalid_tx n
    → (paid b tx tip tx.blob_versioned_hashes).1 ≡ b
paid_kept b tx n none h = refl
paid_kept b tx n (some tip) h = call_laws.block_kept b tx n h

pub dev_call_laws : CallLaws dev_calls
dev_call_laws = record {
  block_grows = λ d tx gas h. (paid_laws d.txs tx gas (tx.effective_tip_per_gas 7) h).0;
  gas_within_limit = λ d tx gas h. (paid_laws d.txs tx gas (tx.effective_tip_per_gas 7) h).1;
  blob_tx_has_blobs =
      λ d tx gas hashes h e. (paid_laws d.txs tx gas (tx.effective_tip_per_gas 7) h).2 hashes e;
  block_kept = λ d tx n h. paid_kept d.txs tx n (tx.effective_tip_per_gas 7) h;
}

pub dev_node_laws :
    {state : B256 → Result PayloadBuilderError (Unit {0})} → NodeLaws dev_calls (node_with state)
dev_node_laws = record { starts_empty = λ b ready h. cc; gas_limit_u64 = λ b. omega arith }

pub dev_seals :
    {state : B256 → Result PayloadBuilderError (Unit {0})}
    → SealLaws dev_calls (node_with state) reading (λ d. d.env.prev_randao)
dev_seals = record {
  asked_for = λ parent env b h. cc;
  kept_by_preparation = λ b ready h. cc;
  kept_by_execution = λ b tx. refl;
  sealed_randao = λ b requests block h. cc;
  sealed_hashes = λ b requests block h. cc;
}

pub dev_headers :
    {state : B256 → Result PayloadBuilderError (Unit {0})}
    → HeaderLaws dev_calls (node_with state) header block_env
dev_headers = record {
  asked_for = λ parent env b h. cc;
  kept_by_preparation = λ b ready h. cc;
  kept_by_execution = λ b tx. refl;
  sealed_env = λ b requests block h. (cc, cc);
}

pub dev_payloads : PayloadLaws dev_node alloy checks reading from_block_unchecked
unfolding block_to_payload
dev_payloads = record {
  same_randao = λ hash b. refl;
  same_hashes = λ hash b. refl;
  same_block = λ last requests b h. refl;
}

pub dev_pool :
    (state : B256 → Result PayloadBuilderError (Unit {0})) (attrs : LoadPayloadBuilderAttributes)
    (b : Draft)
    → PoolLaws dev_calls (limits_of reth dev_calls (node_with state) spec config attrs b)
unfolding limits_of compute_load_blob_cap
dev_pool state attrs b = record {
  gas_in_range = λ i tx rest h. rw ((handed_out i tx rest h).0) (omega arith);
  blobs_in_range = λ i tx rest h. rw ((handed_out i tx rest h).0) (omega arith);
}

pub dev_finite : IsFinite dev_calls (λ i. i)
dev_finite = record {
  next_falls = λ i tx rest h. (handed_out i tx rest h).1;
  mark_invalid_keeps = λ i tx e. omega arith;
  skip_blobs_keeps = λ i. omega arith;
}

pub dev-IsAlive :
    {state : B256 → Result PayloadBuilderError (Unit {0})} → IsAlive dev_calls (node_with state)
dev-IsAlive = record {
  healthy = λ b. record {
    uncancelled = healthy.uncancelled;
    answers = healthy.answers;
    executes = λ d tx e. healthy.executes d.txs tx e;
    pays = λ d tx gas h. healthy.pays d.txs tx gas h;
  };
  finishing = λ b. (_, _, refl, omega arith);
  improves_none = λ fees. refl;
}

pub dev-IsReady :
    {state : B256 → Result PayloadBuilderError (Unit {0})} (parent : Header)
    → state parent.hash ≡ ok tt
    → IsReady (node_with state) parent
dev-IsReady parent there = record {
  state_there = there;
  starts = λ env fixed later. (_, _, refl, refl);
}

-- The import of a block, after which its state alone is there.
abbrev pub import_block : Block → B256 → B256
import_block block known = (header block).hash

pub dev_imports : ImportLaws reth dev_calls node_at import_block spec config header
dev_imports = record {
  ready_after = λ w parent attrs p ready is_block.
      dev-IsReady (header p.inner.block)
        (rw ((slice_eq_iff (header p.inner.block).hash (header p.inner.block).hash).1 refl) refl);
}
