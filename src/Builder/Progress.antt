-- ===== src/Builder/Progress.antt =====
-- What a build on a healthy node comes to.
use load_reth.Common.{
  ℕ, zero, suc, ◌+◌, ◌≡◌, refl, ◌≢◌, ◌⊎◌, inl, inr, ◌≤◌, ◌<◌, true, false, Bool, Option, none, some,
  List, length, arith, add64, Bool-cases, ltb, ◌&&◌, Result, ok, String, if◌then◌else◌,
}
use load_reth.Prevrandao.{B256}
use load_reth.Chain.Types.{LoadChainSpec, Upstream, Hardfork}
use load_reth.Payload.Attributes.{LoadPayloadBuilderAttributes, validate_payload_attributes}
use load_reth.Payload.Built.{Bytes, LoadBuiltPayload}
use load_reth.Builder.Types.{
  Tx, SidecarVariant, legacy, cells, Execution, executed, invalid_tx, fatal, Calls, Limits,
  LoopState, Turn, LoopResult, IsFinite,
}
use load_reth.Builder.Loop.{
  Choice, take, reject, abort, pick_sidecar, choose_sidecar, commit, conclude, execute, proceed,
  estimated_size, turn_live, turn, resume, round, select,
}
use load_reth.Builder.Rules.{asked_for}
use load_reth.Builder.Build.{
  Header, Node, BuilderConfig, BuildFailure, BuildOutcome, better, aborted, next_env, limits_of,
  first_state, seal, conclude_build, default_load_payload,
}
use load_reth.Builder.Termination.{select-Ends}
use load_reth.Builder.Block.{sealed}

-- Nobody cancels the build, the pool's store answers, the execution raises no error but on the
-- transaction, and a transaction that executes pays the base fee.
pub record IsHealthy {I B : Type 0} (c : Calls I B) (base_fee : ℕ) : Type 0 where
  pub uncancelled : (look : ℕ) → c.is_cancelled look ≡ false
  pub answers : (hash : B256) → (found : Option SidecarVariant) × (c.get_blob hash ≡ ok found)
  pub executes : (b : B) (tx : Tx) (e : String) → (c.execute_transaction b tx).0 ≢ fatal e
  pub pays :
      (b : B) (tx : Tx) (gas : ℕ)
      → (c.execute_transaction b tx).0 ≡ executed gas
      → (tip : ℕ) × (tx.effective_tip_per_gas base_fee ≡ some tip)

module _ {I B : Type 0} (c : Calls I B) (l : Limits) (healthy : IsHealthy c l.base_fee) where
  -- The turn goes on to the next.
  abbrev GoesOn : Turn I B → Type 0
  GoesOn (Turn.again s) = Unit
  GoesOn _ = ⊥

  -- The loop does not leave the function.
  abbrev Stays : LoopResult I B → Type 0
  Stays (LoopResult.finished s) = Unit
  Stays LoopResult.out_of_fuel = Unit
  Stays _ = ⊥

  abbrev IsDecided : Choice → Type 0
  IsDecided (abort e) = ⊥
  IsDecided _ = Unit

  pick_sidecar-IsDecided :
      (late : Bool) (found : Option SidecarVariant) → IsDecided (pick_sidecar late (ok found))
  unfolding pick_sidecar
  pick_sidecar-IsDecided true none = tt
  pick_sidecar-IsDecided false none = tt
  pick_sidecar-IsDecided true (some (legacy v)) = tt
  pick_sidecar-IsDecided true (some (cells v)) = tt
  pick_sidecar-IsDecided false (some (legacy v)) = tt
  pick_sidecar-IsDecided false (some (cells v)) = tt

  choose_sidecar-IsDecided :
      (count : ℕ) (hash : B256) (hashes : Option (List B256))
      → IsDecided (choose_sidecar c l count hash hashes)
  unfolding choose_sidecar
  choose_sidecar-IsDecided count hash none = tt
  choose_sidecar-IsDecided count hash (some hs) =
      let (found, there) = healthy.answers hash in
      elim (Bool-cases (ltb l.max_blob_count (add64 count (length hs)))) [
        | inl over ↦ rw over tt
        | inr fits ↦ rw (fits, there) (pick_sidecar-IsDecided l.is_osaka found)
      ]

  conclude-GoesOn :
      (s : LoopState I B) (tx : Tx) (taken : Option SidecarVariant) (b : B) (r : Execution)
      → (c.execute_transaction s.builder tx).0 ≡ r
      → GoesOn (conclude c l s tx taken b r)
  unfolding conclude commit
  conclude-GoesOn s tx taken b (executed gas) e =
      let (tip, paid) = healthy.pays s.builder tx gas e in rw paid tt
  conclude-GoesOn s tx taken b (invalid_tx true) e = tt
  conclude-GoesOn s tx taken b (invalid_tx false) e = tt
  conclude-GoesOn s tx taken b (fatal x) e = absurd (healthy.executes s.builder tx x e)

  proceed-GoesOn :
      (s : LoopState I B) (tx : Tx) (choice : Choice)
      → IsDecided choice
      → GoesOn (proceed c l s tx choice)
  unfolding proceed execute
  proceed-GoesOn s tx (take taken) h = conclude-GoesOn s tx taken _ _ refl
  proceed-GoesOn s tx (reject reason) h = tt
  proceed-GoesOn s tx (abort e) h = absurd h

  turn_live-GoesOn : (s : LoopState I B) (tx : Tx) → GoesOn (turn_live c l s tx)
  unfolding turn_live
  turn_live-GoesOn s tx =
      elim (Bool-cases (l.is_osaka && ltb l.max_rlp_block_size (estimated_size c l s tx))) [
        | inl big ↦ rw big tt
        | inr right ↦ rw right (
            proceed-GoesOn s tx _
              (choose_sidecar-IsDecided s.block_blob_count tx.hash tx.blob_versioned_hashes))
      ]

  turn-GoesOn : (s : LoopState I B) (tx : Tx) → GoesOn (turn c l s tx)
  unfolding turn
  turn-GoesOn s tx =
      elim (Bool-cases (ltb l.block_gas_limit (add64 s.cumulative_gas_used tx.gas_limit))) [
        | inl over ↦ rw over tt
        | inr fits ↦
            rw (fits, healthy.uncancelled s.looks)
              (turn_live-GoesOn (record s { looks = s.looks + 1 }) tx)
      ]

  resume-Stays :
      (rounds : LoopState I B → LoopResult I B) (r : Turn I B)
      → ((s : LoopState I B) → Stays (rounds s))
      → GoesOn r
      → Stays (resume c l rounds r)
  unfolding resume
  resume-Stays rounds (Turn.again s) ih h = ih s
  resume-Stays rounds Turn.cancelled ih h = absurd h
  resume-Stays rounds (Turn.failed e) ih h = absurd h
  resume-Stays rounds Turn.panicked ih h = absurd h

  round-Stays :
      (rounds : LoopState I B → LoopResult I B) (s : LoopState I B) (o : Option (Tx × I))
      → ((s' : LoopState I B) → Stays (rounds s'))
      → Stays (round c l rounds s o)
  unfolding round
  round-Stays rounds s none ih = tt
  round-Stays rounds s (some (tx, rest)) ih = resume-Stays rounds _ ih (turn-GoesOn _ tx)

  select-Stays : (fuel : ℕ) (s : LoopState I B) → Stays (select c l fuel s)
  unfolding select
  select-Stays zero s = tt
  select-Stays (suc fuel) s = round-Stays (select c l fuel) s _ (select-Stays fuel)

  finishes :
      (r : LoopResult I B)
      → Stays r
      → r ≢ LoopResult.out_of_fuel
      → (t : LoopState I B) × (r ≡ LoopResult.finished t)
  finishes (LoopResult.finished t) h fuelled = (t, refl)
  finishes LoopResult.out_of_fuel h fuelled = absurd (fuelled refl)
  finishes LoopResult.cancelled h fuelled = absurd h
  finishes (LoopResult.failed e) h fuelled = absurd h
  finishes LoopResult.panicked h fuelled = absurd h

  pub select-finishes :
      {left : I → ℕ}
      → IsFinite c left
      → (fuel : ℕ) (s : LoopState I B) → left s.best_txs < fuel
      → (t : LoopState I B) × (select c l fuel s ≡ LoopResult.finished t)
  select-finishes fin fuel s enough =
      finishes _ (select-Stays fuel s) (select-Ends c l fin fuel s enough)

-- Every block that the builder finishes is within the size limit of the network.
abbrev pub Finishes : {I B Block : Type 0} → Node I B Block → Type 0
Finishes {I} {B} {Block} node =
    (b : B)
    → (requests : List Bytes) × (block : Block) × (node.finish b ≡ ok (requests, block))
      × (node.rlp_length block ≤ node.max_rlp_block_size)

module _ {I B Block : Type 0} (u : Upstream) (c : Calls I B) (node : Node I B Block)
    (spec : LoadChainSpec) (config : BuilderConfig) (parent : Header)
    (attrs : LoadPayloadBuilderAttributes) where
  -- A better payload, or the fees that the best payload so far already reaches.
  abbrev pub Yields :
      Option (LoadBuiltPayload Block) → Result BuildFailure (BuildOutcome Block) → Type 0
  Yields best r =
      ((p : LoadBuiltPayload Block) × (r ≡ ok (better p)))
      ⊎ ((fees : ℕ) × (r ≡ ok (aborted fees)) × (node.is_better_payload best fees ≡ false))

  within_size :
      {A : Type 0} (late : Bool) {size limit : ℕ} (x y : A)
      → size ≤ limit
      → (if late && ltb limit size then x else y) ≡ y
  within_size true x y h = ground arith
  within_size false x y h = refl

  seal-Yields :
      (best : Option (LoadBuiltPayload Block)) (s : LoopState I B)
      → Finishes node
      → Yields best (seal u c node spec config attrs best s)
  unfolding seal
  seal-Yields best s finishing =
      let (requests, block, done, small) = finishing s.builder in
      elim (Bool-cases (node.is_better_payload best s.total_fees)) [
        | inl improved ↦ inl (
          sealed u c node spec config attrs s requests block,
          rw (improved, done)
              (within_size (spec.inner.active Hardfork.osaka attrs.inner.timestamp) _ _ small),
        )
        | inr worse ↦ inr (s.total_fees, rw worse refl, worse)
      ]

  -- On a healthy node the builder builds. With attributes that pass, the parent's state there, a
  -- builder started and prepared, blocks that finish within the size limit, and fuel above what the
  -- pool's iterator holds: it is neither cancelled nor fails or panics, but gives a better payload,
  -- unless its fees are no improvement on the best payload so far; then it aborts with them.
  pub default_load_payload-Yields :
      {left : I → ℕ} (fin : IsFinite c left) (fuel : ℕ) (best : Option (LoadBuiltPayload Block))
      (start ready : B)
      → validate_payload_attributes parent.timestamp attrs ≡ ok tt
      → node.state_by_block_hash parent.hash ≡ ok tt
      → node.builder_for_next_block parent (next_env u c node spec config parent attrs) ≡ ok start
      → node.apply_pre_execution_changes start ≡ ok ready
      → IsHealthy c (node.basefee start)
      → Finishes node
      → left (asked_for node start) < fuel
      → Yields best (default_load_payload u c node spec config fuel parent attrs best)
  unfolding default_load_payload conclude_build limits_of first_state
  default_load_payload-Yields fin fuel best start ready valid there begun prepared healthy finishing
        enough =
      let (t, done) =
        select-finishes c (limits_of u c node spec config attrs start) healthy fin fuel
          (first_state u c node spec config (asked_for node start) ready) enough in
      rw (valid, there, begun, prepared, done) (seal-Yields best t finishing)
