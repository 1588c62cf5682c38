-- ===== src/Backpressure/Freshness.antt =====
-- When the gauge of the calls in flight is right.
use load_reth.Common.{
  ℕ, zero, suc, ◌+◌, ◌-◌, ◌≡◌, refl, ◌∙◌, ◌≤◌, ◌<◌, Bool, List, [], ◌∷◌, arith, u64_mod, sum_of,
  All, replicate,
}
use load_reth.Backpressure.Gate.{
  Gate, Thread, idle, loading, loaded, entered, accounting, holding, released, reporting, new_gate,
  try_enter, repair, advance, advance_at, run,
}
use load_reth.Backpressure.Capacity.{permits, IsSound, Held, advance_at-Held, new-Held}

-- The thread has changed the counter, and its write of the gauge is still to come.
abbrev pub pending : Thread → ℕ
pending (entered n) = 1
pending (accounting n) = 1
pending (released prev) = 1
pending (reporting next) = 1
pending _ = 0

-- At no point of the schedule are two threads between the counter and the gauge.
unfoldable pub OneWriter : ℕ → List (ℕ × Bool) → Gate → List Thread → Type 0
OneWriter limit [] g threads = sum_of pending threads ≤ 1
OneWriter limit ((i, spurious) ∷ rest) g threads =
    (sum_of pending threads ≤ 1)
    × OneWriter limit rest (advance_at limit i spurious g threads).0
        (advance_at limit i spurious g threads).1

-- A write that is still to come writes `v`.
abbrev WillShow : ℕ → Thread → Type 0
WillShow v (entered n) = n ≡ v
WillShow v (accounting n) = n ≡ v
WillShow v (released prev) = prev - 1 ≡ v
WillShow v (reporting next) = next ≡ v
WillShow v _ = Unit

WillShow-kept : (v w : ℕ) (t : Thread) → (0 < pending t → v ≡ w) → WillShow v t → WillShow w t
WillShow-kept v w (entered n) same h = h ∙ same (omega arith)
WillShow-kept v w (accounting n) same h = h ∙ same (omega arith)
WillShow-kept v w (released prev) same h = h ∙ same (omega arith)
WillShow-kept v w (reporting next) same h = h ∙ same (omega arith)
WillShow-kept v w idle same h = tt
WillShow-kept v w loading same h = tt
WillShow-kept v w (loaded n) same h = tt
WillShow-kept v w holding same h = tt

All-WillShow-kept :
    (v w : ℕ) (threads : List Thread)
    → (0 < sum_of pending threads → v ≡ w)
    → All (WillShow v) threads
    → All (WillShow w) threads
All-WillShow-kept v w [] same h = tt
All-WillShow-kept v w (t ∷ rest) same h = (
  WillShow-kept v w t (λ some_left. same (omega arith)) h.0,
  All-WillShow-kept v w rest (λ some_left. same (omega arith)) h.1,
)

module _ (limit : ℕ) (small : limit < u64_mod) where
  -- `r` writes are still to come besides those of the threads.
  abbrev IsFresh : ℕ → Gate × List Thread → Type 0
  IsFresh r (g, threads) =
      All (WillShow g.inflight) threads × (r + sum_of pending threads ≡ 0 → g.gauge ≡ g.inflight)

  abbrev OneFresh : ℕ → Gate → Gate × Thread → Type 0
  OneFresh r g (g', t') =
      WillShow g'.inflight t'
      × (r + pending t' ≡ 0 → g'.gauge ≡ g'.inflight)
      × (0 < r → g.inflight ≡ g'.inflight)

  advance-OneFresh :
      (spurious : Bool) (r : ℕ) (g : Gate) (t : Thread)
      → permits t ≤ g.inflight
      → g.inflight ≤ limit
      → IsSound t
      → WillShow g.inflight t
      → r + pending t ≤ 1
      → r + pending (advance limit spurious g t).1 ≤ 1
      → (r + pending t ≡ 0 → g.gauge ≡ g.inflight)
      → OneFresh r g (advance limit spurious g t)
  unfolding advance try_enter repair
  advance-OneFresh spurious r g idle has le ok will few few' fresh = ground arith
  advance-OneFresh spurious r g loading has le ok will few few' fresh = ground arith
  advance-OneFresh spurious r g (loaded n) has le ok will few few' fresh = ground arith
  advance-OneFresh spurious r g (entered n) has le ok will few few' fresh = ground arith
  advance-OneFresh spurious r g (accounting n) has le ok will few few' fresh = ground arith
  advance-OneFresh spurious r g holding has le ok will few few' fresh = ground arith
  advance-OneFresh spurious r g (released prev) has le ok will few few' fresh = ground arith
  advance-OneFresh spurious r g (reporting next) has le ok will few few' fresh = ground arith

  advance_at-IsFresh :
      (i : ℕ) (spurious : Bool) (r held : ℕ) (g : Gate) (threads : List Thread)
      → Held limit held g threads
      → r + sum_of pending threads ≤ 1
      → r + sum_of pending (advance_at limit i spurious g threads).1 ≤ 1
      → IsFresh r (g, threads)
      → IsFresh r (advance_at limit i spurious g threads)
        × (0 < r → g.inflight ≡ (advance_at limit i spurious g threads).0.inflight)
  unfolding advance_at
  advance_at-IsFresh i spurious r held g [] h few few' (will, fresh) = ((tt, fresh), λ _. refl)
  advance_at-IsFresh zero spurious r held g (t ∷ rest) h few few' (will, fresh) =
      let (will', fresh', same) =
        advance-OneFresh spurious (r + sum_of pending rest) g t (omega (arith, h.counted)) h.capped
          h.sound.0 will.0 (omega arith) (omega arith) (λ none_left. fresh (omega arith)) in
      (
        (
          (will', All-WillShow-kept _ _ rest (λ some_left. same (omega arith)) will.1),
          λ none_left. fresh' (omega arith),
        ),
        λ some_left. same (omega arith),
      )
  advance_at-IsFresh (suc i) spurious r held g (t ∷ rest) h few few' (will, fresh) =
      let others : Held limit (held + permits t) g rest = record {
        counted = omega (arith, h.counted);
        capped = h.capped;
        sound = h.sound.1;
      } in
      let ((will', fresh'), same) =
        advance_at-IsFresh i spurious (r + pending t) (held + permits t) g rest others (omega arith)
          (omega arith) (will.1, λ none_left. fresh (omega arith)) in
      (
        (
          (WillShow-kept _ _ t (λ some_left. same (omega arith)) will.0, will'),
          λ none_left. fresh' (omega arith),
        ),
        λ some_left. same (omega arith),
      )

  OneWriter-now :
      (schedule : List (ℕ × Bool)) (g : Gate) (threads : List Thread)
      → OneWriter limit schedule g threads
      → 0 + sum_of pending threads ≤ 1
  unfolding OneWriter
  OneWriter-now [] g threads h = omega arith
  OneWriter-now ((i, spurious) ∷ rest) g threads (few, one) = omega arith

  run-IsFresh :
      (schedule : List (ℕ × Bool)) (g : Gate) (threads : List Thread)
      → Held limit 0 g threads
      → OneWriter limit schedule g threads
      → IsFresh 0 (g, threads)
      → IsFresh 0 (run limit schedule g threads)
  unfolding run OneWriter
  run-IsFresh [] g threads h one fresh = fresh
  run-IsFresh ((i, spurious) ∷ rest) g threads h (few, one) fresh =
      run-IsFresh rest _ _ (advance_at-Held limit small i spurious 0 g threads h) one
        (advance_at-IsFresh i spurious 0 0 g threads h (omega arith) (OneWriter-now rest _ _ one)
          fresh).0

nothing_pending : (v n : ℕ) → All (WillShow v) (replicate n idle)
nothing_pending v zero = tt
nothing_pending v (suc n) = (tt, nothing_pending v n)

-- With a limit that fits a `usize`, from a new gate, for any number of threads and any schedule at
-- no point of which two threads are between the counter and the gauge: where no write of the gauge
-- is still to come, the gauge is the number of calls in flight.
pub run_fresh_gauge :
    (limit : ℕ) (n : ℕ) (schedule : List (ℕ × Bool))
    → limit < u64_mod
    → OneWriter limit schedule new_gate (replicate n idle)
    → sum_of pending (run limit schedule new_gate (replicate n idle)).1 ≡ 0
    → let g = (run limit schedule new_gate (replicate n idle)).0 in g.gauge ≡ g.inflight
unfolding new_gate
run_fresh_gauge limit n schedule small one none_left =
    let (_, fresh) =
      run-IsFresh limit small schedule new_gate (replicate n idle) (new-Held limit small n) one
        (nothing_pending 0 n, λ _. refl) in
    fresh (omega arith)
