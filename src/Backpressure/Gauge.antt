-- ===== src/Backpressure/Gauge.antt =====
-- The gauge of the calls in flight, which is written after the counter and apart from it.
use load_reth.Common.{ℕ, ◌≡◌, refl, ◌<◌, Bool, false, List, [], ◌∷◌, arith, leb, replicate, map}
use load_reth.Backpressure.Gate.{idle, new_gate, try_enter, repair, advance, advance_at, run}

-- Two calls come in; both leave; the second to leave reports its number before the first does.
abbrev crossed : List (ℕ × Bool)
crossed = map (λ i. (i, false)) (0 ∷ 0 ∷ 0 ∷ 0 ∷ 0 ∷ 1 ∷ 1 ∷ 1 ∷ 1 ∷ 1 ∷ 0 ∷ 1 ∷ 0 ∷ 1 ∷ 1 ∷ 0 ∷ [])

-- Whatever the limit, from two on: there is a schedule of two calls after which both threads are
-- idle and no call is in flight, but the gauge says one.
run_stale_gauge :
    (limit : ℕ)
    → 1 < limit
    → run limit crossed new_gate (replicate 2 idle)
      ≡ (record { inflight = 0; accepted = 2; rejected = 0; gauge = 1 }, idle ∷ idle ∷ [])
unfolding run advance_at advance try_enter repair new_gate
run_stale_gauge limit two =
    let zero_fits : leb limit 0 ≡ false = ground arith in
    let one_fits : leb limit 1 ≡ false = ground arith in rw zero_fits (rw one_fits refl)
