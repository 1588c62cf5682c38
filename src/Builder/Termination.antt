-- ===== src/Builder/Termination.antt =====
-- How many rounds the loop takes, where the iterator over the best transactions is finite.
use load_reth.Common.{
  ℕ, zero, suc, ◌+◌, ◌≡◌, refl, ◌≢◌, ◌≤◌, ◌<◌, true, false, Option, none, some, List, arith, add64,
  Bool-cases, ltb, ◌&&◌, inl, inr,
}
use load_reth.Prevrandao.{B256}
use load_reth.Builder.Types.{
  Tx, SidecarVariant, Execution, executed, invalid_tx, fatal, InvalidPoolTransaction,
  exceeds_gas_limit, oversized_data, tx_type_not_supported, Calls, Limits, LoopState, Turn,
  LoopResult, IsFinite,
}
use load_reth.Builder.Loop.{
  Choice, take, reject, abort, skip, full_of_blobs, commit, conclude, execute, proceed,
  estimated_size, turn_live, turn, resume, round, select,
}

module _ {I B : Type 0} (c : Calls I B) (l : Limits) {left : I → ℕ} (fin : IsFinite c left) where
  -- A turn that goes on leaves no more than there was.
  abbrev Shrinks : LoopState I B → Turn I B → Type 0
  Shrinks s (Turn.again s') = left s'.best_txs ≤ left s.best_txs
  Shrinks s _ = Unit

  skip-le :
      (s : LoopState I B) (tx : Tx) (e : InvalidPoolTransaction)
      → left (skip c l s tx e).best_txs ≤ left s.best_txs
  unfolding skip
  skip-le s tx e = fin.mark_invalid_keeps s.best_txs tx e

  full_of_blobs-le :
      (hashes : Option (List B256)) (count : ℕ) (i : I)
      → left (full_of_blobs c l hashes count i) ≤ left i
  unfolding full_of_blobs
  full_of_blobs-le none count i = omega arith
  full_of_blobs-le (some hs) count i = ground (arith, fin.skip_blobs_keeps i)

  commit-Shrinks :
      (s : LoopState I B) (tx : Tx) (taken : Option SidecarVariant) (gas : ℕ) (b : B)
      (tip : Option ℕ)
      → Shrinks s (commit c l s tx taken gas b tip)
  unfolding commit
  commit-Shrinks s tx taken gas b none = tt
  commit-Shrinks s tx taken gas b (some tip) =
      full_of_blobs-le tx.blob_versioned_hashes _ s.best_txs

  conclude-Shrinks :
      (s : LoopState I B) (tx : Tx) (taken : Option SidecarVariant) (b : B) (r : Execution)
      → Shrinks s (conclude c l s tx taken b r)
  unfolding conclude
  conclude-Shrinks s tx taken b (executed gas) = commit-Shrinks s tx taken gas b _
  conclude-Shrinks s tx taken b (invalid_tx true) = omega arith
  conclude-Shrinks s tx taken b (invalid_tx false) =
      skip-le (record s { builder = b }) tx tx_type_not_supported
  conclude-Shrinks s tx taken b (fatal e) = tt

  proceed-Shrinks :
      (s : LoopState I B) (tx : Tx) (choice : Choice) → Shrinks s (proceed c l s tx choice)
  unfolding proceed execute
  proceed-Shrinks s tx (take taken) = conclude-Shrinks s tx taken _ _
  proceed-Shrinks s tx (reject reason) = skip-le s tx reason
  proceed-Shrinks s tx (abort e) = tt

  turn-Shrinks : (s : LoopState I B) (tx : Tx) → Shrinks s (turn c l s tx)
  unfolding turn turn_live
  turn-Shrinks s tx =
      elim (Bool-cases (ltb l.block_gas_limit (add64 s.cumulative_gas_used tx.gas_limit))) [
        | inl over ↦ rw over (skip-le s tx (exceeds_gas_limit tx.gas_limit l.block_gas_limit))
        | inr fits ↦ elim (Bool-cases (c.is_cancelled s.looks)) [
          | inl stop ↦ rw (fits, stop) tt
          | inr live ↦ rw (fits, live) (live-Shrinks (record s { looks = s.looks + 1 }))
        ]
      ]
    where
      live-Shrinks : (s' : LoopState I B) → Shrinks s' (turn_live c l s' tx)
      live-Shrinks s' =
          elim (Bool-cases (l.is_osaka && ltb l.max_rlp_block_size (estimated_size c l s' tx))) [
            | inl big ↦
                rw big
                  (skip-le s' tx (oversized_data (estimated_size c l s' tx) l.max_rlp_block_size))
            | inr right ↦ rw right (proceed-Shrinks s' tx _)
          ]

  -- What the rounds that follow are known to do, with `fuel` of them.
  abbrev Ends : ℕ → (LoopState I B → LoopResult I B) → Type 0
  Ends fuel rounds =
      (s : LoopState I B) → left s.best_txs < fuel → rounds s ≢ LoopResult.out_of_fuel

  resume-Ends :
      (fuel : ℕ) (rounds : LoopState I B → LoopResult I B) (s : LoopState I B) (r : Turn I B)
      → Ends fuel rounds
      → Shrinks s r
      → left s.best_txs < fuel
      → resume c l rounds r ≢ LoopResult.out_of_fuel
  unfolding resume
  resume-Ends fuel rounds s (Turn.again s') ih shrunk enough = ih s' (omega arith)
  resume-Ends fuel rounds s Turn.cancelled ih shrunk enough = λ h. cc
  resume-Ends fuel rounds s (Turn.failed e) ih shrunk enough = λ h. cc
  resume-Ends fuel rounds s Turn.panicked ih shrunk enough = λ h. cc

  round-Ends :
      (fuel : ℕ) (rounds : LoopState I B → LoopResult I B) (s : LoopState I B) (o : Option (Tx × I))
      → Ends fuel rounds
      → c.next s.best_txs ≡ o
      → left s.best_txs < suc fuel
      → round c l rounds s o ≢ LoopResult.out_of_fuel
  unfolding round
  round-Ends fuel rounds s none ih e enough = λ h. cc
  round-Ends fuel rounds s (some (tx, rest)) ih e enough =
      resume-Ends fuel rounds (record s { best_txs = rest }) _ ih
        (turn-Shrinks (record s { best_txs = rest }) tx)
        (omega (arith, fin.next_falls s.best_txs tx rest e))

  -- Fuel above what the iterator may still hand out is enough: the loop then finishes, or leaves by
  -- the cancellation, an error or a panic.
  pub select-Ends : (fuel : ℕ) → Ends fuel (select c l fuel)
  unfolding select
  select-Ends zero s enough = absurd (omega arith)
  select-Ends (suc fuel) s enough =
      round-Ends fuel (select c l fuel) s _ (select-Ends fuel) refl enough
