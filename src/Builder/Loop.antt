-- ===== src/Builder/Loop.antt =====
-- The `while let Some(pool_tx) = best_txs.next()` loop of `default_load_payload`.
use load_reth.Common.{
  ℕ, zero, suc, ◌+◌, ◌*◌, ◌%◌, Bool, true, false, ◌&&◌, Option, none, some, List, length, Result,
  ok, err, ltb, ◌==◌, if◌then◌else◌, add64, u256_mod, String,
}
use load_reth.Prevrandao.{B256}
use load_reth.Payload.Built.{BlobSidecars}
use load_reth.Builder.Types.{
  Tx, SidecarVariant, is_eip4844, is_eip7594, InvalidPoolTransaction, exceeds_gas_limit,
  oversized_data, too_many_eip4844_blobs, missing_eip4844_blob_sidecar,
  unexpected_eip4844_sidecar_after_osaka, unexpected_eip7594_sidecar_before_osaka,
  tx_type_not_supported, Execution, executed, invalid_tx, fatal, Calls, Limits, LoopState,
  PayloadBuilderError, other, evm, Turn, LoopResult, blob_count,
}

-- What the checks on a blob transaction come to.
pub data Choice : Type 0 where
  take : Option SidecarVariant → Choice
  reject : InvalidPoolTransaction → Choice
  abort : PayloadBuilderError → Choice

-- The block labelled `'sidecar`, and the `match` on its result; `found` is the pool's answer.
unfoldable pub pick_sidecar : Bool → Result String (Option SidecarVariant) → Choice
pick_sidecar is_osaka (err e) = abort (other e)
pick_sidecar is_osaka (ok none) = reject missing_eip4844_blob_sidecar
pick_sidecar true (ok (some sidecar)) =
    if is_eip7594 sidecar
    then take (some sidecar)
    else reject unexpected_eip4844_sidecar_after_osaka
pick_sidecar false (ok (some sidecar)) =
    if is_eip4844 sidecar
    then take (some sidecar)
    else reject unexpected_eip7594_sidecar_before_osaka

module _ {I B : Type 0} (c : Calls I B) (l : Limits) where
  -- `best_txs.mark_invalid(&pool_tx, &reason); continue`
  unfoldable pub skip : LoopState I B → Tx → InvalidPoolTransaction → LoopState I B
  skip s tx reason = record s { best_txs = c.mark_invalid s.best_txs tx reason }

  -- `if let Some(blob_tx) = tx.as_eip4844()` before the execution.
  unfoldable pub choose_sidecar : ℕ → B256 → Option (List B256) → Choice
  choose_sidecar block_blob_count hash none = take none
  choose_sidecar block_blob_count hash (some hashes) =
      let have = add64 block_blob_count (length hashes) in
      if ltb l.max_blob_count have
      then reject (too_many_eip4844_blobs have l.max_blob_count)
      else pick_sidecar l.is_osaka (c.get_blob hash)

  -- `best_txs.skip_blobs()` once the block is full of blobs; only after a blob transaction.
  unfoldable pub full_of_blobs : Option (List B256) → ℕ → I → I
  full_of_blobs none count best = best
  full_of_blobs (some hashes) count best =
      if count == l.max_blob_count then c.skip_blobs best else best

  -- `if let Some(sidecar) = blob_tx_sidecar`
  abbrev pub push : Option SidecarVariant → BlobSidecars → BlobSidecars
  push none sidecars = sidecars
  push (some sidecar) sidecars = c.push_sidecar_variant sidecars sidecar

  -- What follows a successful execution; `b` is the builder after it, and the last argument the
  -- effective tip, whose absence panics.
  unfoldable pub commit : LoopState I B → Tx → Option SidecarVariant → ℕ → B → Option ℕ → Turn I B
  commit s tx taken gas_used b none = Turn.panicked
  commit s tx taken gas_used b (some miner_fee) =
      let count = add64 s.block_blob_count (blob_count tx) in
      Turn.again (record s {
        builder = b;
        block_blob_count = count;
        best_txs = full_of_blobs tx.blob_versioned_hashes count s.best_txs;
        block_transactions_rlp_length = add64 s.block_transactions_rlp_length tx.rlp_length;
        total_fees = (s.total_fees + miner_fee * gas_used % u256_mod) % u256_mod;
        cumulative_gas_used = add64 s.cumulative_gas_used gas_used;
        blob_sidecars = push taken s.blob_sidecars;
      })

  -- The arms of the `match` on `builder.execute_transaction`.
  unfoldable pub conclude : LoopState I B → Tx → Option SidecarVariant → B → Execution → Turn I B
  conclude s tx taken b (executed gas_used) =
      commit s tx taken gas_used b (tx.effective_tip_per_gas l.base_fee)
  conclude s tx taken b (invalid_tx true) = Turn.again (record s { builder = b })
  conclude s tx taken b (invalid_tx false) =
      Turn.again (skip (record s { builder = b }) tx tx_type_not_supported)
  conclude s tx taken b (fatal e) = Turn.failed (evm e)

  unfoldable pub execute : LoopState I B → Tx → Option SidecarVariant → Turn I B
  execute s tx taken =
      let (result, b) = c.execute_transaction s.builder tx in conclude s tx taken b result

  -- What the checks on the blobs lead to.
  unfoldable pub proceed : LoopState I B → Tx → Choice → Turn I B
  proceed s tx (take taken) = execute s tx taken
  proceed s tx (reject reason) = Turn.again (skip s tx reason)
  proceed s tx (abort e) = Turn.failed e

  -- `estimated_block_size_with_tx`
  abbrev pub estimated_size : LoopState I B → Tx → ℕ
  estimated_size s tx =
      add64 (add64 (add64 s.block_transactions_rlp_length tx.rlp_length) l.withdrawals_length) 1024

  -- The body of the loop after the cancellation test.
  unfoldable pub turn_live : LoopState I B → Tx → Turn I B
  turn_live s tx =
      if l.is_osaka && ltb l.max_rlp_block_size (estimated_size s tx)
      then Turn.again (skip s tx (oversized_data (estimated_size s tx) l.max_rlp_block_size))
      else proceed s tx (choose_sidecar s.block_blob_count tx.hash tx.blob_versioned_hashes)

  -- The body of the loop, on a transaction that the iterator has handed out.
  unfoldable pub turn : LoopState I B → Tx → Turn I B
  turn s tx =
      if ltb l.block_gas_limit (add64 s.cumulative_gas_used tx.gas_limit)
      then Turn.again (skip s tx (exceeds_gas_limit tx.gas_limit l.block_gas_limit))
      else (if c.is_cancelled s.looks
          then Turn.cancelled
          else turn_live (record s { looks = s.looks + 1 }) tx)

  -- The end of a turn: the next round, or the way out of the function.
  unfoldable pub resume : (LoopState I B → LoopResult I B) → Turn I B → LoopResult I B
  resume rounds (Turn.again s) = rounds s
  resume rounds Turn.cancelled = LoopResult.cancelled
  resume rounds (Turn.failed e) = LoopResult.failed e
  resume rounds Turn.panicked = LoopResult.panicked

  -- One round: `rounds` are those that follow.
  unfoldable pub round :
      (LoopState I B → LoopResult I B) → LoopState I B → Option (Tx × I) → LoopResult I B
  round rounds s none = LoopResult.finished s
  round rounds s (some (tx, rest)) = resume rounds (turn (record s { best_txs = rest }) tx)

  -- The loop, with a bound on its rounds.
  unfoldable pub select : ℕ → LoopState I B → LoopResult I B
  select zero s = LoopResult.out_of_fuel
  select (suc fuel) s = round (select fuel) s (c.next s.best_txs)
