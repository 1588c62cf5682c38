-- ===== src/Backpressure/Semaphore.antt =====
-- A counting semaphore, and the events of a gate by which it is compared with one.
use load_reth.Common.{
  ℕ, zero, suc, ◌+◌, ◌-◌, Bool, ◌&&◌, not, Option, none, some, List, [], ◌∷◌, ltb, leb, ◌==◌,
  if◌then◌else◌,
}
use load_reth.Backpressure.Gate.{
  Gate, Thread, idle, loading, loaded, entered, accounting, holding, released, reporting,
  advance_at,
}

-- A call is let in, is refused, or returns its permit; other steps are `quiet`.
pub data Event : Type 0 where
  enter refuse leave quiet : Event

-- What a semaphore of `limit` permits allows with `used` of them given: a call may enter only if a
-- permit is left and may be refused only if none is.
unfoldable pub permit : ℕ → ℕ → Event → Option ℕ
permit limit used enter = if ltb used limit then some (used + 1) else none
permit limit used refuse = if ltb used limit then none else some used
permit limit used leave = if used == 0 then none else some (used - 1)
permit limit used quiet = some used

abbrev pub after : (ℕ → Option ℕ) → Option ℕ → Option ℕ
after rest none = none
after rest (some used) = rest used

-- The permits given after the events, where the semaphore allows each of them.
unfoldable pub replay : ℕ → List Event → ℕ → Option ℕ
replay limit [] used = some used
replay limit (e ∷ rest) used = after (replay limit rest) (permit limit used e)

-- The event of a step. A call is refused at the load that finds the limit reached, and enters at the
-- exchange that succeeds.
unfoldable pub event : ℕ → Bool → Gate → Thread → Event
event limit spurious g idle = quiet
event limit spurious g loading = if leb limit g.inflight then refuse else quiet
event limit spurious g (loaded n) =
    if leb limit n then quiet else (if (g.inflight == n) && not spurious then enter else quiet)
event limit spurious g (entered n) = quiet
event limit spurious g (accounting n) = quiet
event limit spurious g holding = leave
event limit spurious g (released prev) = quiet
event limit spurious g (reporting next) = quiet

unfoldable pub event_at : ℕ → ℕ → Bool → Gate → List Thread → Event
event_at limit i spurious g [] = quiet
event_at limit zero spurious g (t ∷ rest) = event limit spurious g t
event_at limit (suc i) spurious g (t ∷ rest) = event_at limit i spurious g rest

-- The events of a schedule, step by step along `run`.
unfoldable pub trace : ℕ → List (ℕ × Bool) → Gate → List Thread → List Event
trace limit [] g threads = []
trace limit ((i, spurious) ∷ rest) g threads =
    event_at limit i spurious g threads
    ∷ trace limit rest (advance_at limit i spurious g threads).0
        (advance_at limit i spurious g threads).1

abbrev pub is_enter : Event → ℕ
is_enter enter = 1
is_enter refuse = 0
is_enter leave = 0
is_enter quiet = 0

abbrev pub is_refuse : Event → ℕ
is_refuse enter = 0
is_refuse refuse = 1
is_refuse leave = 0
is_refuse quiet = 0

-- What a thread has still to record: that it was let in, or that it was refused.
abbrev pub unrecorded_enter : Thread → ℕ
unrecorded_enter (entered n) = 1
unrecorded_enter _ = 0

abbrev pub unrecorded_refuse : ℕ → Thread → ℕ
unrecorded_refuse limit (loaded n) = if leb limit n then 1 else 0
unrecorded_refuse limit _ = 0
