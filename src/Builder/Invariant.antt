-- ===== src/Builder/Invariant.antt =====
-- The turns of the loop, and the loop, and its invariant.
use load_reth.Common.{
  ℕ, ◌+◌, ◌≡◌, refl, add64, ◌≤◌, ◌<◌, true, false, Option, none, some, arith, u64_mod, inl, inr,
  subst, Bool-cases, ltb, ◌&&◌, zero, suc,
}
use load_reth.Builder.Types.{
  Tx, SidecarVariant, executed, invalid_tx, fatal, Execution, InvalidPoolTransaction,
  tx_type_not_supported, Calls, Limits, LoopState, exceeds_gas_limit, oversized_data, PoolLaws,
  LoopResult, Turn, blob_count, CallLaws,
}
use load_reth.Builder.Loop.{
  Choice, take, reject, abort, skip, choose_sidecar, conclude, execute, proceed, estimated_size,
  turn_live, turn, resume, round, select,
}
use load_reth.Builder.Totals.{Inv, Admitted, choose_taken}
use load_reth.Builder.Commit.{commit-Inv}

module _ {I B : Type 0} (c : Calls I B) (l : Limits) where
  -- A turn that leaves the block as it was.
  skip-Inv :
      (s : LoopState I B) (tx : Tx) (e : InvalidPoolTransaction)
      → Inv c l s
      → Inv c l (skip c l s tx e)
  unfolding skip
  skip-Inv s tx e inv = assumption inv

  kept-Inv :
      (s : LoopState I B) (b : B)
      → Inv c l s
      → c.transactions b ≡ c.transactions s.builder
      → Inv c l (record s { builder = b })
  kept-Inv s b inv e = record {
    blobs_counted = rw e inv.blobs_counted;
    blobs_capped = inv.blobs_capped;
    gas_counted = rw e inv.gas_counted;
    gas_capped = inv.gas_capped;
    fees_counted = rw e inv.fees_counted;
    rlp_counted = rw e inv.rlp_counted;
    sidecars_collected = rw e inv.sidecars_collected;
    sidecars_matched = rw e inv.sidecars_matched;
    blobs_carried = rw e inv.blobs_carried;
  }

  -- Every turn keeps the invariant, whatever the transaction, the execution and the checks say.
  module _ (laws : CallLaws c) (gas_small : l.block_gas_limit < u64_mod)
      (blobs_small : l.max_blob_count < u64_mod) where
    conclude-Inv :
        (s : LoopState I B) (tx : Tx) (taken : Option SidecarVariant) (r : Execution)
        {s' : LoopState I B}
        → Inv c l s
        → Admitted c l s tx taken
        → (c.execute_transaction s.builder tx).0 ≡ r
        → conclude c l s tx taken (c.execute_transaction s.builder tx).1 r ≡ Turn.again s'
        → Inv c l s'
    unfolding conclude
    conclude-Inv s tx taken (executed gas) inv adm e h =
        commit-Inv c l laws s inv tx taken gas gas_small blobs_small adm e _ refl h
    conclude-Inv s tx taken (invalid_tx true) inv adm e h =
        subst (Inv c l) (cc) (kept-Inv s _ inv (laws.block_kept s.builder tx true e))
    conclude-Inv s tx taken (invalid_tx false) inv adm e h = subst (Inv c l) (cc) (
        skip-Inv _ tx tx_type_not_supported
          (kept-Inv s _ inv (laws.block_kept s.builder tx false e)))
    conclude-Inv s tx taken (fatal x) inv adm e h = cc

    proceed-Inv :
        (s : LoopState I B) (tx : Tx) (choice : Choice) {s' : LoopState I B}
        → Inv c l s
        → s.cumulative_gas_used + tx.gas_limit ≤ l.block_gas_limit
        → l.max_blob_count + blob_count tx < u64_mod
        → choose_sidecar c l s.block_blob_count tx.hash tx.blob_versioned_hashes ≡ choice
        → proceed c l s tx choice ≡ Turn.again s'
        → Inv c l s'
    unfolding proceed execute
    proceed-Inv s tx (take taken) inv fits small e h =
        let (within, matched) =
          choose_taken c l s.block_blob_count tx.hash tx.blob_versioned_hashes small
            inv.blobs_capped e in
        conclude-Inv s tx taken _ inv
          (record { gas_fits = fits; blobs_fit = within; matched = matched }) refl h
    proceed-Inv s tx (reject reason) inv fits small e h =
        subst (Inv c l) (cc) (skip-Inv s tx reason inv)
    proceed-Inv s tx (abort x) inv fits small e h = cc

    turn_live-Inv :
        (s : LoopState I B) (tx : Tx) {s' : LoopState I B}
        → Inv c l s
        → s.cumulative_gas_used + tx.gas_limit ≤ l.block_gas_limit
        → l.max_blob_count + blob_count tx < u64_mod
        → turn_live c l s tx ≡ Turn.again s'
        → Inv c l s'
    unfolding turn_live
    turn_live-Inv s tx inv fits small h =
        elim (Bool-cases (l.is_osaka && ltb l.max_rlp_block_size (estimated_size c l s tx))) [
          | inl big ↦
              subst (Inv c l) (cc (rw big at h))
                (skip-Inv s tx (oversized_data (estimated_size c l s tx) l.max_rlp_block_size) inv)
          | inr right ↦ proceed-Inv s tx _ inv fits small refl (rw right at h)
        ]

    pub turn-Inv :
        (s : LoopState I B) (tx : Tx) {s' : LoopState I B}
        → Inv c l s
        → l.block_gas_limit + tx.gas_limit < u64_mod
        → l.max_blob_count + blob_count tx < u64_mod
        → turn c l s tx ≡ Turn.again s'
        → Inv c l s'
    unfolding turn
    turn-Inv s tx inv gas_ok blobs_ok h =
        elim (Bool-cases (ltb l.block_gas_limit (add64 s.cumulative_gas_used tx.gas_limit))) [
          | inl over ↦
              subst (Inv c l) (cc (rw over at h))
                (skip-Inv s tx (exceeds_gas_limit tx.gas_limit l.block_gas_limit) inv)
          | inr fits ↦ elim (Bool-cases (c.is_cancelled s.looks)) [
            | inl stop ↦ cc (rw (fits, stop) at h)
            | inr live ↦
                turn_live-Inv (record s { looks = s.looks + 1 }) tx (assumption inv) (ground arith)
                  blobs_ok (rw (fits, live) at h)
          ]
        ]

    -- What the rounds that follow are known to do.
    abbrev KeepsInv : (LoopState I B → LoopResult I B) → Type 0
    KeepsInv rounds =
        (s t : LoopState I B) → Inv c l s → rounds s ≡ LoopResult.finished t → Inv c l t

    resume-Inv :
        (rounds : LoopState I B → LoopResult I B) (s : LoopState I B) (tx : Tx) (r : Turn I B)
        {t : LoopState I B}
        → KeepsInv rounds
        → Inv c l s
        → l.block_gas_limit + tx.gas_limit < u64_mod
        → l.max_blob_count + blob_count tx < u64_mod
        → turn c l s tx ≡ r
        → resume c l rounds r ≡ LoopResult.finished t
        → Inv c l t
    unfolding resume
    resume-Inv rounds s tx (Turn.again s') {t} ih inv g b e h = ih s' t (turn-Inv s tx inv g b e) h
    resume-Inv rounds s tx Turn.cancelled ih inv g b e h = cc
    resume-Inv rounds s tx (Turn.failed x) ih inv g b e h = cc
    resume-Inv rounds s tx Turn.panicked ih inv g b e h = cc

    round-Inv :
        (rounds : LoopState I B → LoopResult I B) (s : LoopState I B) (o : Option (Tx × I))
        {t : LoopState I B}
        → PoolLaws c l
        → KeepsInv rounds
        → Inv c l s
        → c.next s.best_txs ≡ o
        → round c l rounds s o ≡ LoopResult.finished t
        → Inv c l t
    unfolding round
    round-Inv rounds s none pool ih inv e h = subst (Inv c l) (cc) inv
    round-Inv rounds s (some (tx, rest)) pool ih inv e h =
        resume-Inv rounds (record s { best_txs = rest }) tx _ ih (assumption inv)
          (pool.gas_in_range s.best_txs tx rest e) (pool.blobs_in_range s.best_txs tx rest e) refl h

    -- The loop: from a state with the invariant, and with a pool whose numbers stay in range, it can
    -- only finish in a state with the invariant.
    pub select-Inv : PoolLaws c l → (fuel : ℕ) → KeepsInv (select c l fuel)
    unfolding select
    select-Inv pool zero s t inv h = cc
    select-Inv pool (suc fuel) s t inv h =
        round-Inv (select c l fuel) s _ pool (select-Inv pool fuel) inv refl h
