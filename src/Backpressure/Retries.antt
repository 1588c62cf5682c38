-- ===== src/Backpressure/Retries.antt =====
-- How often the loop of `try_acquire` goes round again, in any interleaving.
use load_reth.Common.{
  ℕ, zero, suc, ◌+◌, ◌*◌, ◌≡◌, refl, ◌⊎◌, inl, inr, ◌≤◌, ◌<◌, Bool, List, [], ◌∷◌, arith, leb, ◌==◌,
  if◌then◌else◌, u64_mod, sum_of, length, length-replicate, replicate,
}
use load_reth.Backpressure.Gate.{
  Gate, Thread, idle, loading, loaded, entered, accounting, holding, released, reporting, new_gate,
  try_enter, repair, advance, advance_at,
}
use load_reth.Backpressure.Capacity.{permits, IsSound, Held, advance_at-Held, new-Held}
use load_reth.Backpressure.Semaphore.{Event, enter, refuse, leave, quiet, event, event_at, trace}

-- The exchange of a thread fails since the counter is not what it has loaded.
unfoldable pub outrun : ℕ → Gate → Thread → ℕ
outrun limit g (loaded n) = if leb limit n then 0 else (if g.inflight == n then 0 else 1)
outrun limit g _ = 0

unfoldable pub outrun_at : ℕ → ℕ → Gate → List Thread → ℕ
outrun_at limit i g [] = 0
outrun_at limit zero g (t ∷ rest) = outrun limit g t
outrun_at limit (suc i) g (t ∷ rest) = outrun_at limit i g rest

-- The failures of that kind in a schedule.
unfoldable pub retries : ℕ → List (ℕ × Bool) → Gate → List Thread → ℕ
retries limit [] g threads = 0
retries limit ((i, spurious) ∷ rest) g threads =
    outrun_at limit i g threads
    + retries limit rest (advance_at limit i spurious g threads).0
        (advance_at limit i spurious g threads).1

-- A call that enters or leaves.
abbrev pub is_move : Event → ℕ
is_move enter = 1
is_move refuse = 0
is_move leave = 1
is_move quiet = 0

-- The thread has loaded a number that is no longer the counter's.
abbrev is_stale : ℕ → Thread → ℕ
is_stale inflight (loaded n) = if inflight == n then 0 else 1
is_stale inflight _ = 0

is_stale-le : (inflight : ℕ) (t : Thread) → is_stale inflight t ≤ 1
is_stale-le inflight (loaded n) = ground arith
is_stale-le inflight idle = omega arith
is_stale-le inflight loading = omega arith
is_stale-le inflight (entered n) = omega arith
is_stale-le inflight (accounting n) = omega arith
is_stale-le inflight holding = omega arith
is_stale-le inflight (released prev) = omega arith
is_stale-le inflight (reporting next) = omega arith

stale-le :
    (inflight : ℕ) (threads : List Thread) → sum_of (is_stale inflight) threads ≤ length threads
stale-le inflight [] = omega arith
stale-le inflight (t ∷ rest) = omega (arith, is_stale-le inflight t, stale-le inflight rest)

none_stale : (inflight n : ℕ) → sum_of (is_stale inflight) (replicate n idle) ≡ 0
none_stale inflight zero = refl
none_stale inflight (suc n) = omega (arith, none_stale inflight n)

module _ (limit : ℕ) (small : limit < u64_mod) where
  -- Either the counter stays, and a failure uses up that the thread was stale; or a call enters or
  -- leaves, and its thread is not stale.
  abbrev Pays : ℕ → ℕ → ℕ → ℕ → ℕ → ℕ → Type 0
  Pays moves failures inflight inflight' stale stale' =
      (moves ≡ 0) × (inflight' ≡ inflight) × (failures + stale' ≤ stale)
      ⊎ (moves ≡ 1) × (failures ≡ 0) × (stale' ≡ 0)

  advance-Pays :
      (spurious : Bool) (g : Gate) (t : Thread)
      → permits t ≤ g.inflight
      → g.inflight ≤ limit
      → IsSound t
      → let (g', t') = advance limit spurious g t in
        Pays
          (is_move (event limit spurious g t))
          (outrun limit g t)
          g.inflight
          g'.inflight
          (is_stale g.inflight t)
          (is_stale g'.inflight t')
  unfolding event advance try_enter repair outrun
  advance-Pays spurious g idle has le ok = ground arith
  advance-Pays spurious g loading has le ok = ground arith
  advance-Pays spurious g (loaded n) has le ok = ground arith
  advance-Pays spurious g (entered n) has le ok = ground arith
  advance-Pays spurious g (accounting n) has le ok = ground arith
  advance-Pays spurious g holding has le ok = ground arith
  advance-Pays spurious g (released prev) has le ok = ground arith
  advance-Pays spurious g (reporting next) has le ok = ground arith

  -- The same of one step among all threads: a move makes no more threads stale than there are.
  abbrev PaysAmong : ℕ → ℕ → Gate × List Thread → Gate × List Thread → Type 0
  PaysAmong moves failures (g, threads) (g', threads') =
      (moves ≡ 0)
        × (g'.inflight ≡ g.inflight)
        × (failures + sum_of (is_stale g'.inflight) threads' ≤ sum_of (is_stale g.inflight) threads)
      ⊎ (moves ≡ 1) × (failures ≡ 0)

  advance_at-PaysAmong :
      (i : ℕ) (spurious : Bool) (r : ℕ) (g : Gate) (threads : List Thread)
      → Held limit r g threads
      → PaysAmong
          (is_move (event_at limit i spurious g threads))
          (outrun_at limit i g threads)
          (g, threads)
          (advance_at limit i spurious g threads)
  unfolding event_at advance_at outrun_at
  advance_at-PaysAmong i spurious r g [] h = inl (refl, refl, omega arith)
  advance_at-PaysAmong zero spurious r g (t ∷ rest) h =
      ground (arith, advance-Pays spurious g t (omega (arith, h.counted)) h.capped h.sound.0)
  advance_at-PaysAmong (suc i) spurious r g (t ∷ rest) h =
      let others : Held limit (r + permits t) g rest = record {
        counted = omega (arith, h.counted);
        capped = h.capped;
        sound = h.sound.1;
      } in
      elim (advance_at-PaysAmong i spurious (r + permits t) g rest others) [
        | inl (quiet_step, same, paid) ↦
            inl (quiet_step, same, rw same (omega (arith, (rw same at paid))))
        | inr moved ↦ inr moved
      ]

  length-advance_at :
      (i : ℕ) (spurious : Bool) (g : Gate) (threads : List Thread)
      → length (advance_at limit i spurious g threads).1 ≡ length threads
  unfolding advance_at
  length-advance_at i spurious g [] = refl
  length-advance_at zero spurious g (t ∷ rest) = refl
  length-advance_at (suc i) spurious g (t ∷ rest) =
      omega (arith, length-advance_at i spurious g rest)

  run_retries :
      (schedule : List (ℕ × Bool)) (n : ℕ) (g : Gate) (threads : List Thread)
      → Held limit 0 g threads
      → length threads ≡ n
      → retries limit schedule g threads
        ≤ sum_of (is_stale g.inflight) threads + n * sum_of is_move (trace limit schedule g threads)
  unfolding retries trace
  run_retries [] n g threads h size = omega arith
  run_retries ((i, spurious) ∷ rest) n g threads h size =
      let (g', threads') = advance_at limit i spurious g threads in
      let later : retries limit rest g' threads'
          ≤ sum_of (is_stale g'.inflight) threads'
            + n * sum_of is_move (trace limit rest g' threads') =
        run_retries rest n g' threads' (advance_at-Held limit small i spurious 0 g threads h)
          (omega (arith, length-advance_at i spurious g threads)) in
      elim (advance_at-PaysAmong i spurious 0 g threads h) [
        | inl (quiet_step, same, paid) ↦ rw quiet_step (omega arith)
        | inr (moved, none_failed) ↦ rw moved (
            rw none_failed (
              omega (arith, stale-le g'.inflight threads', length-advance_at i spurious g threads)))
      ]

-- The loop of `try_acquire` is lock-free. With a limit that fits a `usize`, from a new gate, for any
-- number of threads and any schedule of their steps: the exchanges that fail since the counter is no
-- longer what the thread has loaded are at most as many as the threads for each call that enters or
-- leaves. So no thread goes round without others getting on.
pub run_lock_free :
    (limit : ℕ) (n : ℕ) (schedule : List (ℕ × Bool))
    → limit < u64_mod
    → retries limit schedule new_gate (replicate n idle)
      ≤ n * sum_of is_move (trace limit schedule new_gate (replicate n idle))
unfolding new_gate
run_lock_free limit n schedule small =
    let bound =
      run_retries limit small schedule n new_gate (replicate n idle) (new-Held limit small n)
        (length-replicate n idle) in
    omega (arith, bound, none_stale 0 n)
