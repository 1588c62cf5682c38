-- ===== src/Backpressure/Capacity.antt =====
-- How many calls a gate has let in, in any interleaving.
use load_reth.Common.{
  ℕ, zero, suc, ◌+◌, ◌≡◌, refl, ◌≤◌, ◌<◌, Bool, false, List, [], ◌∷◌, arith, ◌⊎◌, add64, u64_mod,
  sum_of, All, replicate,
}
use load_reth.Backpressure.Gate.{
  Gate, Thread, idle, loading, loaded, entered, accounting, holding, released, reporting, new_gate,
  try_enter, repair, advance, advance_at, run,
}

-- The permits of a thread: it has one from the exchange that lets it in to the subtraction.
abbrev pub permits : Thread → ℕ
permits (entered n) = 1
permits (accounting n) = 1
permits holding = 1
permits _ = 0

-- `fetch_sub` has not found a zero.
abbrev pub IsSound : Thread → Type 0
IsSound (released prev) = 0 < prev
IsSound _ = Unit

-- `r` calls are let in besides those of `threads`.
pub record Held (limit r : ℕ) (g : Gate) (threads : List Thread) : Type 0 where
  pub counted : g.inflight ≡ r + sum_of permits threads
  pub capped : g.inflight ≤ limit
  pub sound : All IsSound threads

module _ (limit : ℕ) (small : limit < u64_mod) where
  abbrev One : ℕ → Gate × Thread → Type 0
  One r (g, t) = (g.inflight ≡ r + permits t) × (g.inflight ≤ limit) × IsSound t

  try_enter-One :
      (spurious : Bool) (r : ℕ) (g : Gate) (n : ℕ)
      → g.inflight ≡ r
      → g.inflight ≤ limit
      → One r (try_enter limit spurious g n)
  unfolding try_enter
  try_enter-One spurious r g n e le = ground arith

  advance-One :
      (spurious : Bool) (r : ℕ) (g : Gate) (t : Thread)
      → g.inflight ≡ r + permits t
      → g.inflight ≤ limit
      → IsSound t
      → One r (advance limit spurious g t)
  unfolding advance repair
  advance-One spurious r g idle e le ok = (e, le, tt)
  advance-One spurious r g loading e le ok = (e, le, tt)
  advance-One spurious r g (loaded n) e le ok = try_enter-One spurious r g n (omega arith) le
  advance-One spurious r g (entered n) e le ok = (e, le, tt)
  advance-One spurious r g (accounting n) e le ok = (e, le, tt)
  advance-One spurious r g holding e le ok = (omega arith, omega arith, omega arith)
  advance-One spurious r g (released prev) e le ok = ground arith
  advance-One spurious r g (reporting next) e le ok = (e, le, tt)

  -- A step of one thread, beside the `r` permits of the others.
  abbrev pub SomeHeld : ℕ → Gate × List Thread → Type 0
  SomeHeld r (g, threads) = Held limit r g threads

  pub advance_at-Held :
      (i : ℕ) (spurious : Bool) (r : ℕ) (g : Gate) (threads : List Thread)
      → Held limit r g threads
      → SomeHeld r (advance_at limit i spurious g threads)
  unfolding advance_at
  advance_at-Held i spurious r g [] h = h
  advance_at-Held zero spurious r g (t ∷ rest) h =
      let (e, le, ok) =
        advance-One spurious (r + sum_of permits rest) g t (omega (arith, h.counted)) h.capped
          h.sound.0 in
      record { counted = omega (arith, e); capped = le; sound = (ok, h.sound.1) }
  advance_at-Held (suc i) spurious r g (t ∷ rest) h =
      let others : Held limit (r + permits t) g rest = record {
        counted = omega (arith, h.counted);
        capped = h.capped;
        sound = h.sound.1;
      } in
      let after = advance_at-Held i spurious (r + permits t) g rest others in
      record {
        counted = omega (arith, after.counted);
        capped = after.capped;
        sound = (h.sound.0, after.sound);
      }

  run-Held :
      (schedule : List (ℕ × Bool)) (g : Gate) (threads : List Thread)
      → Held limit 0 g threads
      → SomeHeld 0 (run limit schedule g threads)
  unfolding run
  run-Held [] g threads h = h
  run-Held ((i, spurious) ∷ rest) g threads h =
      run-Held rest (advance_at limit i spurious g threads).0
        (advance_at limit i spurious g threads).1 (advance_at-Held i spurious 0 g threads h)

  none_held : (n : ℕ) → sum_of permits (replicate n idle) ≡ 0
  none_held zero = refl
  none_held (suc n) = omega (arith, none_held n)

  All-IsSound : (n : ℕ) → All IsSound (replicate n idle)
  All-IsSound zero = tt
  All-IsSound (suc n) = (tt, All-IsSound n)

  pub new-Held : (n : ℕ) → Held limit 0 new_gate (replicate n idle)
  unfolding new_gate
  new-Held n = record {
    counted = omega (arith, none_held n);
    capped = omega arith;
    sound = All-IsSound n;
  }

  -- With a limit that fits a `usize`, from a new gate, any number of threads and any schedule of
  -- their steps, spurious failures of the exchange included: the counter is the number of permits given and not yet returned, and this
  -- never exceeds the limit. No return finds the counter at zero, so the store that would repair it
  -- is never reached.
  pub run_capacity :
      (n : ℕ) (schedule : List (ℕ × Bool))
      → let (g, threads) = run limit schedule new_gate (replicate n idle) in
        (g.inflight ≡ sum_of permits threads)
        × (sum_of permits threads ≤ limit)
        × All IsSound threads
  run_capacity n schedule =
      let h = run-Held schedule new_gate (replicate n idle) (new-Held n) in
      (omega (arith, h.counted), omega (arith, h.counted, h.capped), h.sound)

abbrev pub alone : ℕ → List (ℕ × Bool)
alone n = replicate n (0, false)

-- Where the counter does not overflow, a thread that runs on its own from the head of the loop,
-- without spurious failures, ends: at the
-- limit it is refused after two steps and counted as that; below it, it has the permit after four,
-- and three more, which drop the permit, give its place back.
pub alone_cases :
    (limit : ℕ) (g : Gate)
    → g.inflight + 1 < u64_mod
    → ((g.inflight < limit)
        × ((run limit (alone 4) g (loading ∷ [])) ≡ (
          record g {
            inflight = g.inflight + 1;
            accepted = add64 g.accepted 1;
            gauge = g.inflight + 1;
          },
          holding ∷ [],
        ))
        × ((run limit (alone 7) g (loading ∷ []))
            ≡ (record g { accepted = add64 g.accepted 1; gauge = g.inflight }, idle ∷ [])))
      ⊎ ((limit ≤ g.inflight)
          × ((run limit (alone 2) g (loading ∷ []))
              ≡ (record g { rejected = add64 g.rejected 1 }, idle ∷ [])))
unfolding run advance_at advance try_enter repair
alone_cases limit g small = ground arith
