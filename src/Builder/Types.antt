-- ===== src/Builder/Types.antt =====
-- The data of the payload builder, and what the selection loop calls of reth.
use load_reth.Common.{
  ℕ, ◌<◌, ◌≤◌, ◌+◌, ◌≡◌, ◌++◌, Bool, true, false, Option, none, some, List, [], ◌∷◌, Result, String,
  length, u64_mod,
}
use load_reth.Prevrandao.{B256}
use load_reth.Payload.Attributes.{LoadPayloadAttributesError}
use load_reth.Payload.Built.{Sidecar, CellSidecar, BlobSidecars}

-- A pooled transaction: what the loop reads of it. `effective_tip_per_gas` takes the base fee.
pub record Tx : Type 0 where
  pub hash : B256
  pub gas_limit : ℕ
  pub rlp_length : ℕ
  pub blob_versioned_hashes : Option (List B256)  -- of an EIP-4844 transaction
  pub effective_tip_per_gas : ℕ → Option ℕ

-- `BlobTransactionSidecarVariant`
pub data SidecarVariant : Type 0 where
  legacy : Sidecar → SidecarVariant
  cells : CellSidecar → SidecarVariant

abbrev pub is_eip4844 : SidecarVariant → Bool
is_eip4844 (legacy _) = true
is_eip4844 (cells _) = false

abbrev pub is_eip7594 : SidecarVariant → Bool
is_eip7594 (legacy _) = false
is_eip7594 (cells _) = true

-- Why the loop marks a transaction as invalid.
pub data InvalidPoolTransaction : Type 0 where
  exceeds_gas_limit : (gas_limit block_gas_limit : ℕ) → InvalidPoolTransaction
  oversized_data : (size limit : ℕ) → InvalidPoolTransaction
  too_many_eip4844_blobs : (have permitted : ℕ) → InvalidPoolTransaction
  missing_eip4844_blob_sidecar : InvalidPoolTransaction
  unexpected_eip4844_sidecar_after_osaka : InvalidPoolTransaction
  unexpected_eip7594_sidecar_before_osaka : InvalidPoolTransaction
  tx_type_not_supported : InvalidPoolTransaction

-- What `execute_transaction` returns: the gas used, an invalid transaction, or another error.
pub data Execution : Type 0 where
  executed : (gas_used : ℕ) → Execution
  invalid_tx : (nonce_too_low : Bool) → Execution
  fatal : String → Execution

-- `I` is the iterator over the best transactions, `B` the block builder. `is_cancelled` gives the
-- answer of the n-th look at the cancellation mark; `transactions` is what the builder has put into
-- the block, each transaction with the gas that it used.
pub record Calls (I B : Type 0) : Type 0 where
  pub next : I → Option (Tx × I)
  pub mark_invalid : I → Tx → InvalidPoolTransaction → I
  pub skip_blobs : I → I
  pub execute_transaction : B → Tx → Execution × B
  pub transactions : B → List (Tx × ℕ)
  pub get_blob : B256 → Result String (Option SidecarVariant)
  pub push_sidecar_variant : BlobSidecars → SidecarVariant → BlobSidecars
  pub is_cancelled : ℕ → Bool

-- The values that stay fixed during the loop.
pub record Limits : Type 0 where
  pub block_gas_limit : ℕ
  pub base_fee : ℕ
  pub max_blob_count : ℕ
  pub is_osaka : Bool
  pub withdrawals_length : ℕ
  pub max_rlp_block_size : ℕ

-- The variables of the loop.
pub record LoopState (I B : Type 0) : Type 0 where
  pub best_txs : I
  pub builder : B
  pub cumulative_gas_used : ℕ
  pub total_fees : ℕ
  pub blob_sidecars : BlobSidecars
  pub block_blob_count : ℕ
  pub block_transactions_rlp_length : ℕ
  pub looks : ℕ  -- at the cancellation mark

-- What a build may end in, short of a result.
pub data PayloadBuilderError : Type 0 where
  other : String → PayloadBuilderError
  invalid_attributes : LoadPayloadAttributesError → PayloadBuilderError
  internal : String → PayloadBuilderError
  evm : String → PayloadBuilderError
  block_too_large : (rlp_length max_rlp_length : ℕ) → PayloadBuilderError
  missing_payload : PayloadBuilderError

pub data Turn (I B : Type 0) : Type 0 where
  again : LoopState I B → Turn I B
  cancelled : Turn I B
  failed : PayloadBuilderError → Turn I B
  panicked : Turn I B

-- `out_of_fuel` is the model's: the fuel did not last.
pub data LoopResult (I B : Type 0) : Type 0 where
  finished : LoopState I B → LoopResult I B
  cancelled : LoopResult I B
  failed : PayloadBuilderError → LoopResult I B
  panicked : LoopResult I B
  out_of_fuel : LoopResult I B

-- The blobs of a transaction: the versioned hashes that it carries.
abbrev pub hash_count : Option (List B256) → ℕ
hash_count none = 0
hash_count (some hashes) = length hashes

abbrev pub blob_count : Tx → ℕ
blob_count tx = hash_count tx.blob_versioned_hashes

-- What reth documents of these calls. A transaction that executes is appended to the block with
-- the gas that it used, its own limit at most, and as EIP-4844 asks has a blob if it is a blob
-- transaction; any other leaves the block as it was.
pub record CallLaws {I B : Type 0} (c : Calls I B) : Type 0 where
  pub block_grows :
      (b : B) (tx : Tx) (gas : ℕ)
      → (c.execute_transaction b tx).0 ≡ executed gas
      → c.transactions (c.execute_transaction b tx).1 ≡ c.transactions b ++ (tx, gas) ∷ []
  pub gas_within_limit :
      (b : B) (tx : Tx) (gas : ℕ)
      → (c.execute_transaction b tx).0 ≡ executed gas
      → gas ≤ tx.gas_limit
  pub blob_tx_has_blobs :
      (b : B) (tx : Tx) (gas : ℕ) (hashes : List B256)
      → (c.execute_transaction b tx).0 ≡ executed gas
      → tx.blob_versioned_hashes ≡ some hashes
      → 0 < length hashes
  pub block_kept :
      (b : B) (tx : Tx) (nonce_too_low : Bool)
      → (c.execute_transaction b tx).0 ≡ invalid_tx nonce_too_low
      → c.transactions (c.execute_transaction b tx).1 ≡ c.transactions b

-- The pool hands out transactions whose numbers do not overflow the sums of the loop.
pub record PoolLaws {I B : Type 0} (c : Calls I B) (l : Limits) : Type 0 where
  pub gas_in_range :
      (i : I) (tx : Tx) (rest : I)
      → c.next i ≡ some (tx, rest)
      → l.block_gas_limit + tx.gas_limit < u64_mod
  pub blobs_in_range :
      (i : I) (tx : Tx) (rest : I)
      → c.next i ≡ some (tx, rest)
      → l.max_blob_count + blob_count tx < u64_mod

-- The pool hands out finitely many transactions during the build: `left` counts those that the
-- iterator may still hand out, including the ones that arrive while it is used.
pub record IsFinite {I B : Type 0} (c : Calls I B) (left : I → ℕ) : Type 0 where
  pub next_falls : (i : I) (tx : Tx) (rest : I) → c.next i ≡ some (tx, rest) → left rest < left i
  pub mark_invalid_keeps :
      (i : I) (tx : Tx) (e : InvalidPoolTransaction) → left (c.mark_invalid i tx e) ≤ left i
  pub skip_blobs_keeps : (i : I) → left (c.skip_blobs i) ≤ left i
