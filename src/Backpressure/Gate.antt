-- ===== src/Backpressure/Gate.antt =====
-- One gate of rpc/backpressure.rs under concurrent calls: `try_acquire`, and the release when the
-- permit is dropped, in atomic steps that any thread may take next.
use load_reth.Common.{
  ℕ, zero, suc, ◌-◌, Bool, ◌&&◌, not, List, [], ◌∷◌, leb, ◌==◌, if◌then◌else◌, add64, sub64,
}

-- What the threads share of a method: its gate, and its three metrics.
pub record Gate : Type 0 where
  pub inflight : ℕ
  pub accepted : ℕ
  pub rejected : ℕ
  pub gauge : ℕ

-- Where a thread stands. `loading` is the head of the loop of `try_acquire`; `loaded` holds what it
-- has read; `entered` and `accounting` have the permit and still record it, with the number to
-- record; `holding` runs the call; `released` holds what `fetch_sub` returned, `reporting` the
-- number to record.
pub data Thread : Type 0 where
  idle loading : Thread
  loaded : (inflight : ℕ) → Thread
  entered : (inflight : ℕ) → Thread
  accounting : (inflight : ℕ) → Thread
  holding : Thread
  released : (prev : ℕ) → Thread
  reporting : (next : ℕ) → Thread

-- `MethodGate::new`
unfoldable pub new_gate : Gate
new_gate = record { inflight = 0; accepted = 0; rejected = 0; gauge = 0 }

-- From a loaded number on: the test of the limit, and the weak compare-and-exchange, which may fail
-- although the number is unchanged (`spurious`).
unfoldable pub try_enter : ℕ → Bool → Gate → ℕ → Gate × Thread
try_enter limit spurious g inflight =
    if leb limit inflight
    then (record g { rejected = add64 g.rejected 1 }, idle)
    else (if (g.inflight == inflight) && not spurious
        then (record g { inflight = add64 inflight 1 }, entered (add64 inflight 1))
        else (g, loading))

-- `prev.saturating_sub(1)`, and the store of zero where `prev` was zero.
unfoldable pub repair : Gate → ℕ → Gate × Thread
repair g prev =
    if prev == 0
    then (record g { inflight = 0 }, reporting (prev - 1))
    else (g, reporting (prev - 1))

unfoldable pub advance : ℕ → Bool → Gate → Thread → Gate × Thread
advance limit spurious g idle = (g, loading)
advance limit spurious g loading = (g, loaded g.inflight)
advance limit spurious g (loaded inflight) = try_enter limit spurious g inflight
advance limit spurious g (entered inflight) =
    (record g { accepted = add64 g.accepted 1 }, accounting inflight)
advance limit spurious g (accounting inflight) = (record g { gauge = inflight }, holding)
advance limit spurious g holding = (record g { inflight = sub64 g.inflight 1 }, released g.inflight)
advance limit spurious g (released prev) = repair g prev
advance limit spurious g (reporting next) = (record g { gauge = next }, idle)

-- A step of the thread at a position; none where there is no such thread.
unfoldable pub advance_at : ℕ → ℕ → Bool → Gate → List Thread → Gate × List Thread
advance_at limit i spurious g [] = (g, [])
advance_at limit zero spurious g (t ∷ rest) =
    let (g', t') = advance limit spurious g t in (g', t' ∷ rest)
advance_at limit (suc i) spurious g (t ∷ rest) =
    let (g', rest') = advance_at limit i spurious g rest in (g', t ∷ rest')

-- The steps of a schedule, each a thread and whether a weak exchange of it fails.
unfoldable pub run : ℕ → List (ℕ × Bool) → Gate → List Thread → Gate × List Thread
run limit [] g threads = (g, threads)
run limit ((i, spurious) ∷ rest) g threads =
    let (g', threads') = advance_at limit i spurious g threads in run limit rest g' threads'
