-- ===== src/Builder/Selection.antt =====
-- What the loop ought to select, told by the block alone: of each transaction that the pool hands
-- out, whether it is included, or the reason for which it is not.
use load_reth.Common.{
  ℕ, ◌+◌, ◌%◌, ◌≡◌, ◌≤◌, ◌<◌, Bool, true, false, none, some, List, [], ◌∷◌, ok, sum_of, u64_mod,
}
use load_reth.Prevrandao.{B256}
use load_reth.Builder.Types.{
  Tx, SidecarVariant, is_eip4844, is_eip7594, InvalidPoolTransaction, exceeds_gas_limit,
  oversized_data, too_many_eip4844_blobs, missing_eip4844_blob_sidecar,
  unexpected_eip4844_sidecar_after_osaka, unexpected_eip7594_sidecar_before_osaka,
  tx_type_not_supported, executed, invalid_tx, Calls, Limits, blob_count,
}
use load_reth.Builder.Loop.{full_of_blobs}
use load_reth.Builder.Totals.{blobs, gas_used, rlp}

pub data Verdict : Type 0 where
  included : (gas : ℕ) → Verdict
  nonce_too_low not_executed : Verdict
  refused : InvalidPoolTransaction → Verdict

-- The transactions included, each with its gas.
abbrev pub chosen : List (Tx × Verdict) → List (Tx × ℕ)
chosen [] = []
chosen ((tx, included gas) ∷ rest) = (tx, gas) ∷ chosen rest
chosen ((tx, nonce_too_low) ∷ rest) = chosen rest
chosen ((tx, not_executed) ∷ rest) = chosen rest
chosen ((tx, refused reason) ∷ rest) = chosen rest

module _ {I B : Type 0} (c : Calls I B) (l : Limits) where
  -- A blob transaction whose pooled sidecar `kind` does not recognize.
  abbrev pub OfOtherKind : Tx → (SidecarVariant → Bool) → Type 0
  OfOtherKind tx kind = (v : SidecarVariant) × (c.get_blob tx.hash ≡ ok (some v)) × (kind v ≡ false)

  abbrev pub IsBlobTx : Tx → Type 0
  IsBlobTx tx = (hashes : List B256) × (tx.blob_versioned_hashes ≡ some hashes)

  -- When a reason holds, on a builder with the transactions `block`.
  abbrev pub Holds : List (Tx × ℕ) → Tx → InvalidPoolTransaction → Type 0
  Holds block tx (exceeds_gas_limit gas limit) =
      (gas ≡ tx.gas_limit) × (limit ≡ l.block_gas_limit) × (limit < sum_of gas_used block + gas)
  Holds block tx (oversized_data size limit) =
      (l.is_osaka ≡ true)
      × (limit ≡ l.max_rlp_block_size)
      × (size ≡ (sum_of rlp block + tx.rlp_length + l.withdrawals_length + 1024) % u64_mod)
      × (limit < size)
  Holds block tx (too_many_eip4844_blobs have permitted) =
      IsBlobTx tx
      × (have ≡ sum_of blobs block + blob_count tx)
      × (permitted ≡ l.max_blob_count)
      × (permitted < have)
  Holds block tx missing_eip4844_blob_sidecar = IsBlobTx tx × (c.get_blob tx.hash ≡ ok none)
  Holds block tx unexpected_eip4844_sidecar_after_osaka =
      IsBlobTx tx × (l.is_osaka ≡ true) × OfOtherKind tx is_eip7594
  Holds block tx unexpected_eip7594_sidecar_before_osaka =
      IsBlobTx tx × (l.is_osaka ≡ false) × OfOtherKind tx is_eip4844
  Holds block tx tx_type_not_supported = ⊥

  -- When a verdict is right, on the builder `b`.
  abbrev pub Justified : B → Tx → Verdict → Type 0
  Justified b tx (included gas) =
      ((c.execute_transaction b tx).0 ≡ executed gas)
      × (sum_of gas_used (c.transactions b) + tx.gas_limit ≤ l.block_gas_limit)
  Justified b tx nonce_too_low = (c.execute_transaction b tx).0 ≡ invalid_tx true
  Justified b tx not_executed = (c.execute_transaction b tx).0 ≡ invalid_tx false
  Justified b tx (refused reason) = Holds (c.transactions b) tx reason

  abbrev pub builder_after : B → Tx → Verdict → B
  builder_after b tx (refused reason) = b
  builder_after b tx _ = (c.execute_transaction b tx).1

  -- The iterator after the verdict: the pool hears of an invalid transaction, and is asked for no
  -- more blob transactions once the block has its cap of blobs.
  abbrev pub iterator_after : I → B → Tx → Verdict → I
  iterator_after i b tx (included gas) =
      full_of_blobs c l tx.blob_versioned_hashes (sum_of blobs (c.transactions b)) i
  iterator_after i b tx nonce_too_low = i
  iterator_after i b tx not_executed = c.mark_invalid i tx tx_type_not_supported
  iterator_after i b tx (refused reason) = c.mark_invalid i tx reason

  -- From an iterator and a builder, the verdicts on everything handed out lead to the last builder.
  pub data Selects : I → B → List (Tx × Verdict) → B → Type 0 where
    exhausted : {i : I} {b : B} → c.next i ≡ none → Selects i b [] b
    offers :
        {i rest : I} {b last : B} {tx : Tx} {log : List (Tx × Verdict)} (v : Verdict)
        → c.next i ≡ some (tx, rest)
        → Justified b tx v
        → Selects (iterator_after rest (builder_after b tx v) tx v) (builder_after b tx v) log last
        → Selects i b ((tx, v) ∷ log) last
