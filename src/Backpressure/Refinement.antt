-- ===== src/Backpressure/Refinement.antt =====
-- A gate beside its specification, the counting semaphore, in any interleaving.
use load_reth.Common.{
  ℕ, zero, suc, ◌+◌, ◌%◌, ◌≡◌, refl, ◌≤◌, ◌<◌, Bool, some, List, [], ◌∷◌, arith, u64_mod, sum_of,
  replicate,
}
use load_reth.Backpressure.Gate.{
  Gate, Thread, idle, loading, loaded, entered, accounting, holding, released, reporting, new_gate,
  try_enter, repair, advance, advance_at, run,
}
use load_reth.Backpressure.Capacity.{permits, IsSound, Held, advance_at-Held, new-Held}
use load_reth.Backpressure.Semaphore.{
  Event, permit, replay, event, event_at, trace, is_enter, is_refuse, unrecorded_enter,
  unrecorded_refuse,
}

module _ (limit : ℕ) (small : limit < u64_mod) where
  -- A step of a thread is a step of the semaphore.
  permit-advance :
      (spurious : Bool) (g : Gate) (t : Thread)
      → permits t ≤ g.inflight
      → g.inflight ≤ limit
      → IsSound t
      → permit limit g.inflight (event limit spurious g t)
        ≡ some (advance limit spurious g t).0.inflight
  unfolding permit event advance try_enter repair
  permit-advance spurious g idle has le ok = refl
  permit-advance spurious g loading has le ok = ground arith
  permit-advance spurious g (loaded n) has le ok = ground arith
  permit-advance spurious g (entered n) has le ok = refl
  permit-advance spurious g (accounting n) has le ok = refl
  permit-advance spurious g holding has le ok = ground arith
  permit-advance spurious g (released prev) has le ok = ground arith
  permit-advance spurious g (reporting next) has le ok = refl

  permit-advance_at :
      (i : ℕ) (spurious : Bool) (r : ℕ) (g : Gate) (threads : List Thread)
      → Held limit r g threads
      → permit limit g.inflight (event_at limit i spurious g threads)
        ≡ some (advance_at limit i spurious g threads).0.inflight
  unfolding event_at advance_at permit
  permit-advance_at i spurious r g [] h = refl
  permit-advance_at zero spurious r g (t ∷ rest) h =
      permit-advance spurious g t (omega (arith, h.counted)) h.capped h.sound.0
  permit-advance_at (suc i) spurious r g (t ∷ rest) h =
      permit-advance_at i spurious (r + permits t) g rest
        (record { counted = omega (arith, h.counted); capped = h.capped; sound = h.sound.1 })

  replay-trace :
      (schedule : List (ℕ × Bool)) (g : Gate) (threads : List Thread)
      → Held limit 0 g threads
      → replay limit (trace limit schedule g threads) g.inflight
        ≡ some (run limit schedule g threads).0.inflight
  unfolding replay trace run
  replay-trace [] g threads h = refl
  replay-trace ((i, spurious) ∷ rest) g threads h =
      rw (permit-advance_at i spurious 0 g threads h) (
        replay-trace rest (advance_at limit i spurious g threads).0
          (advance_at limit i spurious g threads).1
          (advance_at-Held limit small i spurious 0 g threads h))

module _ (limit : ℕ) where
  -- A step of one thread adds its event to the counters, beside what is left to the others.
  abbrev Counts : ℕ → ℕ → Event → Gate → Thread → Gate × Thread → Type 0
  Counts r q e g t (g', t') =
      ((g'.accepted + (unrecorded_enter t' + r)) % u64_mod
        ≡ (g.accepted + (unrecorded_enter t + r) + is_enter e) % u64_mod)
      × ((g'.rejected + (unrecorded_refuse limit t' + q)) % u64_mod
          ≡ (g.rejected + (unrecorded_refuse limit t + q) + is_refuse e) % u64_mod)

  advance-Counts :
      (spurious : Bool) (r q : ℕ) (g : Gate) (t : Thread)
      → Counts r q (event limit spurious g t) g t (advance limit spurious g t)
  unfolding event advance try_enter repair
  advance-Counts spurious r q g idle = ground arith
  advance-Counts spurious r q g loading = ground arith
  advance-Counts spurious r q g (loaded n) = ground arith
  advance-Counts spurious r q g (entered n) = ground arith
  advance-Counts spurious r q g (accounting n) = ground arith
  advance-Counts spurious r q g holding = ground arith
  advance-Counts spurious r q g (released prev) = ground arith
  advance-Counts spurious r q g (reporting next) = ground arith

  -- The same with the threads counted, and several steps.
  abbrev Adds : ℕ → ℕ → ℕ → ℕ → Gate × List Thread → Gate × List Thread → Type 0
  Adds r q enters refusals (g, threads) (g', threads') =
      ((g'.accepted + (sum_of unrecorded_enter threads' + r)) % u64_mod
        ≡ (g.accepted + (sum_of unrecorded_enter threads + r) + enters) % u64_mod)
      × ((g'.rejected + (sum_of (unrecorded_refuse limit) threads' + q)) % u64_mod
          ≡ (g.rejected + (sum_of (unrecorded_refuse limit) threads + q) + refusals) % u64_mod)

  advance_at-Adds :
      (i : ℕ) (spurious : Bool) (r q : ℕ) (g : Gate) (threads : List Thread)
      → let e = event_at limit i spurious g threads in
        Adds r q (is_enter e) (is_refuse e) (g, threads) (advance_at limit i spurious g threads)
  unfolding event_at advance_at
  advance_at-Adds i spurious r q g [] = (omega arith, omega arith)
  advance_at-Adds zero spurious r q g (t ∷ rest) =
      let (entered_one, refused_one) =
        advance-Counts spurious (sum_of unrecorded_enter rest + r)
          (sum_of (unrecorded_refuse limit) rest + q) g t in
      (omega (arith, entered_one), omega (arith, refused_one))
  advance_at-Adds (suc i) spurious r q g (t ∷ rest) =
      let (entered_one, refused_one) =
        advance_at-Adds i spurious (unrecorded_enter t + r) (unrecorded_refuse limit t + q) g
          rest in
      (omega (arith, entered_one), omega (arith, refused_one))

  run-Adds :
      (schedule : List (ℕ × Bool)) (g : Gate) (threads : List Thread)
      → let events = trace limit schedule g threads in
        Adds 0 0
          (sum_of is_enter events)
          (sum_of is_refuse events)
          (g, threads)
          (run limit schedule g threads)
  unfolding trace run
  run-Adds [] g threads = (omega arith, omega arith)
  run-Adds ((i, spurious) ∷ rest) g threads =
      let (entered_one, refused_one) = advance_at-Adds i spurious 0 0 g threads in
      let (entered_more, refused_more) =
        run-Adds rest (advance_at limit i spurious g threads).0
          (advance_at limit i spurious g threads).1 in
      (omega (arith, entered_one, entered_more), omega (arith, refused_one, refused_more))

  none_unrecorded :
      (n : ℕ)
      → (sum_of unrecorded_enter (replicate n idle) ≡ 0)
        × (sum_of (unrecorded_refuse limit) (replicate n idle) ≡ 0)
  none_unrecorded zero = (refl, refl)
  none_unrecorded (suc n) =
      (omega (arith, (none_unrecorded n).0), omega (arith, (none_unrecorded n).1))

-- The gate implements a counting semaphore. With a limit that fits a `usize`, from a new gate, for
-- any number of threads and any schedule of their steps: the semaphore allows the events of the
-- schedule one after the other, a refusal only while every permit is given and an entry only while
-- one is left, and ends with the gate's number in flight. Modulo 2 ^ 64, the accepted counter and
-- the entries not yet recorded are the entries, and the rejected counter and the refusals not yet
-- recorded are the refusals.
pub run_refines :
    (limit : ℕ) (n : ℕ) (schedule : List (ℕ × Bool))
    → limit < u64_mod
    → let (g, threads) = run limit schedule new_gate (replicate n idle) in
      let events = trace limit schedule new_gate (replicate n idle) in
      (replay limit events 0 ≡ some g.inflight)
      × ((g.accepted + sum_of unrecorded_enter threads) % u64_mod
          ≡ sum_of is_enter events % u64_mod)
      × ((g.rejected + sum_of (unrecorded_refuse limit) threads) % u64_mod
          ≡ sum_of is_refuse events % u64_mod)
unfolding new_gate
run_refines limit n schedule small =
    let (accepted, rejected) = run-Adds limit schedule new_gate (replicate n idle) in
    (
      replay-trace limit small schedule new_gate (replicate n idle) (new-Held limit small n),
      omega (arith, accepted, (none_unrecorded limit n).0),
      omega (arith, rejected, (none_unrecorded limit n).1),
    )
