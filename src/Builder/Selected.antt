-- ===== src/Builder/Selected.antt =====
-- The loop beside what it ought to select.
use load_reth.Common.{
  ℕ, zero, suc, ◌≡◌, refl, sym, ◌∙◌, subst, ◌<◌, Option, none, some, List, [], ◌∷◌, ◌++◌, u64_mod,
  true, false,
}
use mathlib.Core.List.{append_assoc, append-nil}
use load_reth.Builder.Types.{Tx, Calls, Limits, LoopState, Turn, LoopResult, CallLaws, PoolLaws}
use load_reth.Builder.Loop.{turn, resume, round, select}
use load_reth.Builder.Totals.{Inv}
use load_reth.Builder.Selection.{
  Verdict, included, nonce_too_low, not_executed, refused, chosen, iterator_after, Selects,
  exhausted, offers,
}
use load_reth.Builder.Judged.{Judged, turn-Judged}
use load_reth.Builder.Invariant.{turn-Inv}

module _ {I B : Type 0} (c : Calls I B) (l : Limits) where
  -- The verdicts of the rounds to come.
  abbrev SelectsTo : I → B → B → Type 0
  SelectsTo i b last = (log : List (Tx × Verdict)) × Selects c l i b log last

  -- What the rounds that follow are known to do.
  abbrev Judges : (LoopState I B → LoopResult I B) → Type 0
  Judges rounds =
      (s t : LoopState I B)
      → Inv c l s
      → rounds s ≡ LoopResult.finished t
      → SelectsTo s.best_txs s.builder t.builder

  module _ (laws : CallLaws c) (gas_small : l.block_gas_limit < u64_mod)
      (blobs_small : l.max_blob_count < u64_mod) (pool : PoolLaws c l) where
    offers-SelectsTo :
        (i : I) (s s' : LoopState I B) (tx : Tx) {last : B}
        → c.next i ≡ some (tx, s.best_txs)
        → Inv c l s'
        → Judged c l s tx s'
        → SelectsTo s'.best_txs s'.builder last
        → SelectsTo i s.builder last
    offers-SelectsTo i s s' tx {last} handed inv' j (log, rest) = (
      (tx, j.verdict) ∷ log,
      offers j.verdict handed j.justified (
          subst (λ b. Selects c l (iterator_after c l s.best_txs b tx j.verdict) b log last)
            j.builder
            (subst (λ k. Selects c l k s'.builder log last) (j.iterator inv'.blobs_counted) rest)),
    )

    resume-Judges :
        (rounds : LoopState I B → LoopResult I B) (i : I) (s : LoopState I B) (tx : Tx)
        (r : Turn I B) {t : LoopState I B}
        → Judges rounds
        → c.next i ≡ some (tx, s.best_txs)
        → Inv c l s
        → turn c l s tx ≡ r
        → resume c l rounds r ≡ LoopResult.finished t
        → SelectsTo i s.builder t.builder
    unfolding resume
    resume-Judges rounds i s tx (Turn.again s') {t} ih handed inv e h =
        let gas_ok = pool.gas_in_range i tx s.best_txs handed in
        let blobs_ok = pool.blobs_in_range i tx s.best_txs handed in
        let inv' = turn-Inv c l laws gas_small blobs_small s tx inv gas_ok blobs_ok e in
        offers-SelectsTo i s s' tx handed inv' (turn-Judged c l s tx inv gas_ok blobs_ok e)
          (ih s' t inv' h)
    resume-Judges rounds i s tx Turn.cancelled ih handed inv e h = cc
    resume-Judges rounds i s tx (Turn.failed x) ih handed inv e h = cc
    resume-Judges rounds i s tx Turn.panicked ih handed inv e h = cc

    round-Judges :
        (rounds : LoopState I B → LoopResult I B) (s : LoopState I B) (o : Option (Tx × I))
        {t : LoopState I B}
        → Judges rounds
        → Inv c l s
        → c.next s.best_txs ≡ o
        → round c l rounds s o ≡ LoopResult.finished t
        → SelectsTo s.best_txs s.builder t.builder
    unfolding round
    round-Judges rounds s none {t} ih inv e h =
        subst (SelectsTo s.best_txs s.builder) {x = s.builder} {y = t.builder} (cc)
          ([], exhausted e)
    round-Judges rounds s (some (tx, rest)) ih inv e h =
        resume-Judges rounds s.best_txs (record s { best_txs = rest }) tx _ ih e (assumption inv)
          refl h

    -- A loop that finishes has given a right verdict on everything that the pool handed out.
    pub select-Judges : (fuel : ℕ) → Judges (select c l fuel)
    unfolding select
    select-Judges zero s t inv h = cc
    select-Judges (suc fuel) s t inv h =
        round-Judges (select c l fuel) s _ (select-Judges fuel) inv refl h

  -- The last builder has the transactions that were included, after those it started with.
  pub Selects-chosen :
      {i : I} {b last : B} {log : List (Tx × Verdict)}
      → CallLaws c
      → Selects c l i b log last
      → c.transactions last ≡ c.transactions b ++ chosen log
  Selects-chosen {b = b} laws (exhausted none_left) = sym (append-nil (c.transactions b))
  Selects-chosen {b = b} laws
        (offers {tx = tx} {log = log} (included gas) handed (ran, fits) rest) =
      Selects-chosen laws rest
      ∙ rw (laws.block_grows b tx gas ran)
          (append_assoc (c.transactions b) ((tx, gas) ∷ []) (chosen log))
  Selects-chosen {b = b} laws (offers {tx = tx} nonce_too_low handed ran rest) =
      Selects-chosen laws rest ∙ rw (laws.block_kept b tx true ran) refl
  Selects-chosen {b = b} laws (offers {tx = tx} not_executed handed ran rest) =
      Selects-chosen laws rest ∙ rw (laws.block_kept b tx false ran) refl
  Selects-chosen laws (offers (refused reason) handed holds rest) = Selects-chosen laws rest
