-- ===== src/Builder/Judged.antt =====
-- The verdict of a turn of the loop on its transaction.
use load_reth.Common.{
  ℕ, ◌+◌, ◌≡◌, refl, ◌∙◌, subst, ◌≤◌, ◌<◌, ◌&&◌, true, false, Bool, Option, none, some, List,
  Result, ok, err, arith, add64, u64_mod, sum_of, length, String, Bool-cases, ltb, inl, inr, ltb→lt,
}
use load_reth.Prevrandao.{B256}
use load_reth.Builder.Types.{
  Tx, SidecarVariant, legacy, cells, InvalidPoolTransaction, exceeds_gas_limit, oversized_data,
  too_many_eip4844_blobs, missing_eip4844_blob_sidecar, unexpected_eip4844_sidecar_after_osaka,
  unexpected_eip7594_sidecar_before_osaka, Execution, executed, invalid_tx, fatal, Calls, Limits,
  LoopState, Turn, blob_count, hash_count,
}
use load_reth.Builder.Loop.{
  Choice, take, reject, abort, skip, pick_sidecar, choose_sidecar, full_of_blobs, commit, conclude,
  execute, proceed, estimated_size, turn_live, turn,
}
use load_reth.Builder.Totals.{blobs, gas_used, Inv}
use load_reth.Builder.Selection.{
  Verdict, included, nonce_too_low, not_executed, refused, Holds, Justified, builder_after,
  iterator_after, IsBlobTx,
}

module _ {I B : Type 0} (c : Calls I B) (l : Limits) where
  -- A turn that has given a right verdict; `s'` is the state after it.
  pub record Judged (s : LoopState I B) (tx : Tx) (s' : LoopState I B) : Type 0 where
    pub verdict : Verdict
    pub justified : Justified c l s.builder tx verdict
    pub builder : s'.builder ≡ builder_after c l s.builder tx verdict
    pub iterator :
        s'.block_blob_count ≡ sum_of blobs (c.transactions s'.builder)
        → s'.best_txs ≡ iterator_after c l s.best_txs s'.builder tx verdict

  skip-Judged :
      (s : LoopState I B) (tx : Tx) (reason : InvalidPoolTransaction)
      → Holds c l (c.transactions s.builder) tx reason
      → Judged s tx (skip c l s tx reason)
  unfolding skip
  skip-Judged s tx reason holds = record {
    verdict = refused reason;
    justified = holds;
    builder = refl;
    iterator = λ _. refl;
  }

  -- A verdict on a state stands on any state with the same builder and iterator.
  same-Judged :
      (s : LoopState I B) (looks : ℕ) (tx : Tx) (s' : LoopState I B)
      → Judged (record s { looks = looks }) tx s'
      → Judged s tx s'
  same-Judged s looks tx s' j = record {
    verdict = j.verdict;
    justified = j.justified;
    builder = j.builder;
    iterator = j.iterator;
  }

  commit_kept :
      (s : LoopState I B) (tx : Tx) (taken : Option SidecarVariant) (gas : ℕ) (b : B)
      (tip : Option ℕ) {s' : LoopState I B}
      → commit c l s tx taken gas b tip ≡ Turn.again s'
      → (s'.builder ≡ b)
        × (s'.best_txs ≡ full_of_blobs c l tx.blob_versioned_hashes s'.block_blob_count s.best_txs)
  unfolding commit
  commit_kept s tx taken gas b none h = cc
  commit_kept s tx taken gas b (some tip) h = (cc, cc)

  conclude-Judged :
      (s : LoopState I B) (tx : Tx) (taken : Option SidecarVariant) (r : Execution)
      {s' : LoopState I B}
      → sum_of gas_used (c.transactions s.builder) + tx.gas_limit ≤ l.block_gas_limit
      → (c.execute_transaction s.builder tx).0 ≡ r
      → conclude c l s tx taken (c.execute_transaction s.builder tx).1 r ≡ Turn.again s'
      → Judged s tx s'
  unfolding conclude skip
  conclude-Judged s tx taken (executed gas) {s'} fits e h =
      let (same, left) = commit_kept s tx taken gas _ _ h in
      record {
        verdict = included gas;
        justified = (e, fits);
        builder = same;
        iterator = λ counted. left ∙ rw counted refl;
      }
  conclude-Judged s tx taken (invalid_tx true) fits e h = record {
    verdict = nonce_too_low;
    justified = e;
    builder = cc;
    iterator = λ _. cc;
  }
  conclude-Judged s tx taken (invalid_tx false) fits e h = record {
    verdict = not_executed;
    justified = e;
    builder = cc;
    iterator = λ _. cc;
  }
  conclude-Judged s tx taken (fatal x) fits e h = cc

  pick-Holds :
      (block : List (Tx × ℕ)) (tx : Tx) (late : Bool)
      (found : Result String (Option SidecarVariant)) {reason : InvalidPoolTransaction}
      → IsBlobTx c l tx
      → l.is_osaka ≡ late
      → c.get_blob tx.hash ≡ found
      → pick_sidecar late found ≡ reject reason
      → Holds c l block tx reason
  unfolding pick_sidecar
  pick-Holds block tx late (err e) is_blob fork there h = cc
  pick-Holds block tx late (ok none) {reason} is_blob fork there h =
      subst (Holds c l block tx) {x = missing_eip4844_blob_sidecar} {y = reason} (cc)
        (is_blob, there)
  pick-Holds block tx true (ok (some (legacy v))) {reason} is_blob fork there h =
      subst (Holds c l block tx) {x = unexpected_eip4844_sidecar_after_osaka} {y = reason} (cc)
        (is_blob, fork, (legacy v, there, refl))
  pick-Holds block tx true (ok (some (cells v))) is_blob fork there h = cc
  pick-Holds block tx false (ok (some (legacy v))) is_blob fork there h = cc
  pick-Holds block tx false (ok (some (cells v))) {reason} is_blob fork there h =
      subst (Holds c l block tx) {x = unexpected_eip7594_sidecar_before_osaka} {y = reason} (cc)
        (is_blob, fork, (cells v, there, refl))

  choose-Holds :
      (block : List (Tx × ℕ)) (tx : Tx) (count : ℕ) (hashes : Option (List B256))
      {reason : InvalidPoolTransaction}
      → tx.blob_versioned_hashes ≡ hashes
      → count ≡ sum_of blobs block
      → count ≤ l.max_blob_count
      → l.max_blob_count + hash_count hashes < u64_mod
      → choose_sidecar c l count tx.hash hashes ≡ reject reason
      → Holds c l block tx reason
  unfolding choose_sidecar
  choose-Holds block tx count none e counted capped small h = cc
  choose-Holds block tx count (some hs) {reason} e counted capped small h =
      elim (Bool-cases (ltb l.max_blob_count (add64 count (length hs)))) [
        | inl over ↦
            subst (Holds c l block tx)
              {x = too_many_eip4844_blobs (add64 count (length hs)) l.max_blob_count} {y = reason}
              (cc (rw over at h))
              (
                (hs, e),
                (let own : blob_count tx ≡ length hs = rw e refl in omega (arith, own, counted)),
                refl,
                ltb→lt _ _ over,
              )
        | inr fits ↦
            pick-Holds block tx l.is_osaka (c.get_blob tx.hash) (hs, e) refl refl (rw fits at h)
      ]

  module _ (s : LoopState I B) (tx : Tx) (inv : Inv c l s)
      (gas_ok : l.block_gas_limit + tx.gas_limit < u64_mod)
      (blobs_ok : l.max_blob_count + blob_count tx < u64_mod) where
    proceed-Judged :
        (choice : Choice) {s' : LoopState I B}
        → sum_of gas_used (c.transactions s.builder) + tx.gas_limit ≤ l.block_gas_limit
        → choose_sidecar c l s.block_blob_count tx.hash tx.blob_versioned_hashes ≡ choice
        → proceed c l s tx choice ≡ Turn.again s'
        → Judged s tx s'
    unfolding proceed execute
    proceed-Judged (take taken) fits e h = conclude-Judged s tx taken _ fits refl h
    proceed-Judged (reject reason) fits e h = subst (Judged s tx) (cc) (
        skip-Judged s tx reason (
          choose-Holds (c.transactions s.builder) tx s.block_blob_count tx.blob_versioned_hashes
            refl inv.blobs_counted inv.blobs_capped blobs_ok e))
    proceed-Judged (abort x) fits e h = cc

    turn_live-Judged :
        {s' : LoopState I B}
        → sum_of gas_used (c.transactions s.builder) + tx.gas_limit ≤ l.block_gas_limit
        → turn_live c l s tx ≡ Turn.again s'
        → Judged s tx s'
    unfolding turn_live
    turn_live-Judged fits h =
        elim (Bool-cases (l.is_osaka && ltb l.max_rlp_block_size (estimated_size c l s tx))) [
          | inl big ↦ subst (Judged s tx) (cc (rw big at h)) (
              skip-Judged s tx (oversized_data (estimated_size c l s tx) l.max_rlp_block_size)
                (too_big big))
          | inr right ↦ proceed-Judged _ fits refl (rw right at h)
        ]
      where
        too_big :
            (l.is_osaka && ltb l.max_rlp_block_size (estimated_size c l s tx)) ≡ true
            → Holds c l
                (c.transactions s.builder)
                tx
                (oversized_data (estimated_size c l s tx) l.max_rlp_block_size)
        too_big big = (ground arith, refl, omega (arith, inv.rlp_counted), ground arith)

  pub turn-Judged :
      (s : LoopState I B) (tx : Tx) {s' : LoopState I B}
      → Inv c l s
      → l.block_gas_limit + tx.gas_limit < u64_mod
      → l.max_blob_count + blob_count tx < u64_mod
      → turn c l s tx ≡ Turn.again s'
      → Judged s tx s'
  unfolding turn
  turn-Judged s tx inv gas_ok blobs_ok h =
      elim (Bool-cases (ltb l.block_gas_limit (add64 s.cumulative_gas_used tx.gas_limit))) [
        | inl over ↦ subst (Judged s tx) (cc (rw over at h)) (
            skip-Judged s tx (exceeds_gas_limit tx.gas_limit l.block_gas_limit)
              (refl, refl, over_gas over))
        | inr fits ↦ elim (Bool-cases (c.is_cancelled s.looks)) [
          | inl stop ↦ cc (rw (fits, stop) at h)
          | inr live ↦ same-Judged s (s.looks + 1) tx _ (
              turn_live-Judged (record s { looks = s.looks + 1 }) tx (assumption inv) gas_ok
                blobs_ok (within fits) (rw (fits, live) at h))
        ]
      ]
    where
      over_gas :
          ltb l.block_gas_limit (add64 s.cumulative_gas_used tx.gas_limit) ≡ true
          → l.block_gas_limit < sum_of gas_used (c.transactions s.builder) + tx.gas_limit
      over_gas over = ground (arith, inv.gas_counted, inv.gas_capped)

      within :
          ltb l.block_gas_limit (add64 s.cumulative_gas_used tx.gas_limit) ≡ false
          → sum_of gas_used (c.transactions s.builder) + tx.gas_limit ≤ l.block_gas_limit
      within fits = ground (arith, inv.gas_counted, inv.gas_capped)
