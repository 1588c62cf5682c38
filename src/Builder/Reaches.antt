-- ===== src/Builder/Reaches.antt =====
-- Which builders a build can end in: those that executing transactions leads to.
use load_reth.Common.{
  zero, suc, ◌≡◌, refl, ◌⊎◌, inl, inr, ◌+◌, true, false, Option, none, some, ℕ, subst, Bool-cases,
  ltb, ◌&&◌, add64, ◌∙◌,
}
use load_reth.Builder.Types.{
  Tx, SidecarVariant, Execution, executed, invalid_tx, fatal, Calls, Limits, LoopState, LoopResult,
  Turn,
}
use load_reth.Builder.Loop.{
  Choice, take, reject, abort, skip, commit, conclude, execute, proceed, estimated_size, turn_live,
  turn, resume, round, select,
}

-- `run` is `execute_transaction`.
pub data Reaches {B : Type 0} (run : B → Tx → Execution × B) : B → B → Type 0 where
  stay : {b : B} → Reaches run b b
  after : {b b' : B} (tx : Tx) → Reaches run (run b tx).1 b' → Reaches run b b'

-- What the execution of a transaction keeps, the builders reached from one agree on.
pub Reaches-kept :
    {B X : Type 0} (run : B → Tx → Execution × B) (f : B → X) {b b' : B}
    → ((d : B) (tx : Tx) → f (run d tx).1 ≡ f d)
    → Reaches run b b'
    → f b' ≡ f b
Reaches-kept run f kept stay = refl
Reaches-kept run f {b} kept (after tx rest) = Reaches-kept run f kept rest ∙ kept b tx

module _ {I B : Type 0} (c : Calls I B) (l : Limits) where
  -- A turn leaves the builder alone, or has executed the transaction.
  abbrev Moved : LoopState I B → Tx → LoopState I B → Type 0
  Moved s tx s' = (s'.builder ≡ s.builder) ⊎ (s'.builder ≡ (c.execute_transaction s.builder tx).1)

  commit-Moved :
      (s : LoopState I B) (tx : Tx) (taken : Option SidecarVariant) (gas : ℕ) (b : B)
      (fee : Option ℕ) {s' : LoopState I B}
      → commit c l s tx taken gas b fee ≡ Turn.again s'
      → s'.builder ≡ b
  unfolding commit
  commit-Moved s tx taken gas b none h = cc
  commit-Moved s tx taken gas b (some fee) h = cc

  conclude-Moved :
      (s : LoopState I B) (tx : Tx) (taken : Option SidecarVariant) (b : B) (r : Execution)
      {s' : LoopState I B}
      → conclude c l s tx taken b r ≡ Turn.again s'
      → s'.builder ≡ b
  unfolding conclude skip
  conclude-Moved s tx taken b (executed gas) h = commit-Moved s tx taken gas b _ h
  conclude-Moved s tx taken b (invalid_tx true) h = cc
  conclude-Moved s tx taken b (invalid_tx false) h = cc
  conclude-Moved s tx taken b (fatal x) h = cc

  proceed-Moved :
      (s : LoopState I B) (tx : Tx) (choice : Choice) {s' : LoopState I B}
      → proceed c l s tx choice ≡ Turn.again s'
      → Moved s tx s'
  unfolding proceed execute skip
  proceed-Moved s tx (take taken) h = inr (conclude-Moved s tx taken _ _ h)
  proceed-Moved s tx (reject reason) h = inl (cc)
  proceed-Moved s tx (abort x) h = cc

  turn_live-Moved :
      (s : LoopState I B) (tx : Tx) {s' : LoopState I B}
      → turn_live c l s tx ≡ Turn.again s'
      → Moved s tx s'
  unfolding turn_live skip
  turn_live-Moved s tx h =
      elim (Bool-cases (l.is_osaka && ltb l.max_rlp_block_size (estimated_size c l s tx))) [
        | inl big ↦ inl (cc (rw big at h))
        | inr right ↦ proceed-Moved s tx _ (rw right at h)
      ]

  turn-Moved :
      (s : LoopState I B) (tx : Tx) {s' : LoopState I B}
      → turn c l s tx ≡ Turn.again s'
      → Moved s tx s'
  unfolding turn skip
  turn-Moved s tx h =
      elim (Bool-cases (ltb l.block_gas_limit (add64 s.cumulative_gas_used tx.gas_limit))) [
        | inl over ↦ inl (cc (rw over at h))
        | inr fits ↦ elim (Bool-cases (c.is_cancelled s.looks)) [
          | inl stop ↦ cc (rw (fits, stop) at h)
          | inr live ↦ turn_live-Moved (record s { looks = s.looks + 1 }) tx (rw (fits, live) at h)
        ]
      ]

  -- What the rounds that follow are known to do.
  abbrev Goes : (LoopState I B → LoopResult I B) → Type 0
  Goes rounds =
      (s t : LoopState I B)
      → rounds s ≡ LoopResult.finished t
      → Reaches c.execute_transaction s.builder t.builder

  moved-Reaches :
      (s s' : LoopState I B) (tx : Tx) {b : B}
      → Moved s tx s'
      → Reaches c.execute_transaction s'.builder b
      → Reaches c.execute_transaction s.builder b
  moved-Reaches s s' tx {b} (inl e) rest = subst (λ d. Reaches c.execute_transaction d b) e rest
  moved-Reaches s s' tx {b} (inr e) rest =
      after tx (subst (λ d. Reaches c.execute_transaction d b) e rest)

  resume-Reaches :
      (rounds : LoopState I B → LoopResult I B) (s : LoopState I B) (tx : Tx) (r : Turn I B)
      {t : LoopState I B}
      → Goes rounds
      → turn c l s tx ≡ r
      → resume c l rounds r ≡ LoopResult.finished t
      → Reaches c.execute_transaction s.builder t.builder
  unfolding resume
  resume-Reaches rounds s tx (Turn.again s') {t} ih e h =
      moved-Reaches s s' tx (turn-Moved s tx e) (ih s' t h)
  resume-Reaches rounds s tx Turn.cancelled ih e h = cc
  resume-Reaches rounds s tx (Turn.failed x) ih e h = cc
  resume-Reaches rounds s tx Turn.panicked ih e h = cc

  round-Reaches :
      (rounds : LoopState I B → LoopResult I B) (s : LoopState I B) (o : Option (Tx × I))
      {t : LoopState I B}
      → Goes rounds
      → round c l rounds s o ≡ LoopResult.finished t
      → Reaches c.execute_transaction s.builder t.builder
  unfolding round
  round-Reaches rounds s none {t} ih h =
      subst (Reaches c.execute_transaction s.builder) {x = s.builder} {y = t.builder} (cc) stay
  round-Reaches rounds s (some (tx, rest)) ih h =
      resume-Reaches rounds (record s { best_txs = rest }) tx _ ih refl h

  -- The loop ends in a builder that executing transactions leads to.
  pub select-Reaches : (fuel : ℕ) → Goes (select c l fuel)
  unfolding select
  select-Reaches zero s t h = cc
  select-Reaches (suc fuel) s t h = round-Reaches (select c l fuel) s _ (select-Reaches fuel) h
