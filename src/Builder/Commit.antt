-- ===== src/Builder/Commit.antt =====
-- A transaction that executes, and the loop's invariant.
use load_reth.Common.{
  Each, ℕ, ◌+◌, ◌*◌, ◌%◌, ◌≡◌, refl, sym, add64, ◌<◌, Option, none, some, List, [], ◌∷◌, ◌++◌,
  arith, sum_of, sum_of-append, All, All-append, length, u64_mod, u256_mod, subst,
}
use load_reth.Prevrandao.{B256}
use load_reth.Payload.Built.{empty}
use load_reth.Builder.Types.{
  Tx, SidecarVariant, executed, Calls, Limits, LoopState, Turn, blob_count, CallLaws,
}
use load_reth.Builder.Loop.{push, commit, full_of_blobs}
use load_reth.Builder.Totals.{
  fee, blobs, gas_used, rlp, Matched, HasSidecar, CarriesBlob, sidecar_for, collect, collect-append,
  Inv, Admitted,
}

module _ {I B : Type 0} (c : Calls I B) (l : Limits) where
  pub sidecar_for-Matched :
      (hash : B256) (hashes : Option (List B256)) {taken : Option SidecarVariant}
      → Matched c l hash hashes taken
      → sidecar_for c l hash hashes ≡ taken
  sidecar_for-Matched hash none m = cc
  sidecar_for-Matched hash (some hs) (v, t, g, _) = rw g (sym t)

  -- A transaction that executes leaves the totals exact and within the caps.
  module _ (laws : CallLaws c) (s : LoopState I B) (inv : Inv c l s) (tx : Tx)
      (taken : Option SidecarVariant) (gas : ℕ) (gas_small : l.block_gas_limit < u64_mod)
      (blobs_small : l.max_blob_count < u64_mod) (adm : Admitted c l s tx taken)
      (done : (c.execute_transaction s.builder tx).0 ≡ executed gas) where
    abbrev pub after : B
    after = (c.execute_transaction s.builder tx).1

    grown : c.transactions after ≡ c.transactions s.builder ++ (tx, gas) ∷ []
    grown = laws.block_grows s.builder tx gas done

    total-grown :
        (f : Tx × ℕ → ℕ)
        → sum_of f (c.transactions after) ≡ sum_of f (c.transactions s.builder) + f (tx, gas)
    total-grown f = rw (grown, sum_of-append f (c.transactions s.builder)) (omega arith)

    collected : collect c l empty (c.transactions after) ≡ push c l taken s.blob_sidecars
    collected = rw (
      grown,
      collect-append c l empty (c.transactions s.builder),
      ← inv.sidecars_collected,
      sidecar_for-Matched tx.hash tx.blob_versioned_hashes adm.matched,
    )

    matched : All (HasSidecar c l) (c.transactions after)
    matched = rw grown (
        All-append (HasSidecar c l) (c.transactions s.builder) ((tx, gas) ∷ []) inv.sidecars_matched
          ((taken, adm.matched), tt))

    carried : All (CarriesBlob c l) (c.transactions after)
    carried = rw grown (
        All-append (CarriesBlob c l) (c.transactions s.builder) ((tx, gas) ∷ []) inv.blobs_carried
          (carries tx.blob_versioned_hashes refl, tt))
      where
        carries :
            (o : Option (List B256))
            → tx.blob_versioned_hashes ≡ o
            → Each (λ hashes. 0 < length hashes) o
        carries none e = tt
        carries (some hashes) e = laws.blob_tx_has_blobs s.builder tx gas hashes done e

    committed : ℕ → LoopState I B
    committed tip = record s {
      builder = after;
      block_blob_count = add64 s.block_blob_count (blob_count tx);
      best_txs =
          full_of_blobs c l tx.blob_versioned_hashes (add64 s.block_blob_count (blob_count tx))
            s.best_txs;
      block_transactions_rlp_length = add64 s.block_transactions_rlp_length tx.rlp_length;
      total_fees = (s.total_fees + tip * gas % u256_mod) % u256_mod;
      cumulative_gas_used = add64 s.cumulative_gas_used gas;
      blob_sidecars = push c l taken s.blob_sidecars;
    }

    committed-Inv :
        (tip : ℕ) → tx.effective_tip_per_gas l.base_fee ≡ some tip → Inv c l (committed tip)
    unfolding committed
    committed-Inv tip paid = record {
      blobs_counted = omega (arith, total-grown blobs, adm.blobs_fit, inv.blobs_counted);
      blobs_capped = omega (arith, adm.blobs_fit);
      gas_counted = omega (
        arith,
        total-grown gas_used,
        laws.gas_within_limit s.builder tx gas done,
        adm.gas_fits,
        inv.gas_counted,
      );
      gas_capped = omega (arith, laws.gas_within_limit s.builder tx gas done, adm.gas_fits);
      fees_counted = omega (arith, total-grown (fee l.base_fee), fee_paid, inv.fees_counted);
      rlp_counted = omega (arith, total-grown rlp, inv.rlp_counted);
      sidecars_collected = sym collected;
      sidecars_matched = matched;
      blobs_carried = carried;
    }
      where
        fee_paid : fee l.base_fee (tx, gas) ≡ tip * gas
        fee_paid = rw paid

    pub commit-Inv :
        (tip : Option ℕ) {s' : LoopState I B}
        → tx.effective_tip_per_gas l.base_fee ≡ tip
        → commit c l s tx taken gas after tip ≡ Turn.again s'
        → Inv c l s'
    unfolding commit committed
    commit-Inv none paid h = cc
    commit-Inv (some tip) paid h = subst (Inv c l) (cc) (committed-Inv tip paid)
