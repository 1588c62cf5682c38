-- ===== src/Backpressure/System.antt =====
-- All the gates of `LoadRpcBackpressureState` at once: any number of callers, each with one request
-- after the other, for whatever method.
use load_reth.Common.{
  ℕ, zero, suc, Bool, true, false, Option, none, some, List, [], ◌∷◌, String, if◌then◌else◌,
}
use load_reth.Backpressure.Config.{
  GuardedMethod, send_raw_transaction, get_transaction_count, send_raw_transaction_sync,
  LoadRpcBackpressureConfig, limit_for, classify_method,
}
use load_reth.Backpressure.Gate.{Thread, idle, advance}
use load_reth.Backpressure.Service.{World, gate_of, with_gate}

-- A caller, with the method of the call that it is in or was last in.
pub record Caller : Type 0 where
  pub method : GuardedMethod
  pub thread : Thread

-- The gate that the caller's next step is at: its own, or that of the request it takes up where it
-- is idle, if there is one for that name.
abbrev pub next_gate :
    LoadRpcBackpressureConfig → String → GuardedMethod → Thread → Option GuardedMethod
next_gate config name method idle = classify_method config name
next_gate config name method _ = some method

abbrev pub gate_for : LoadRpcBackpressureConfig → Caller → String → Option GuardedMethod
gate_for config k name = next_gate config name k.method k.thread

module _ {W : Type 0} (config : LoadRpcBackpressureConfig) where
  -- A step of a caller at a gate; a request without a gate passes by.
  unfoldable pub step_at_gate : World W → Caller → Bool → Option GuardedMethod → World W × Caller
  step_at_gate w k spurious none = (w, k)
  step_at_gate w k spurious (some m) =
      let (g, t) = advance (limit_for config m) spurious (gate_of w m) k.thread in
      (with_gate w m g, record { method = m; thread = t })

  -- The caller at a position takes a step, with the name of the request that it takes up if idle.
  unfoldable pub step : ℕ → String → Bool → World W → List Caller → World W × List Caller
  step i name spurious w [] = (w, [])
  step zero name spurious w (k ∷ rest) =
      let (w', k') = step_at_gate w k spurious (gate_for config k name) in (w', k' ∷ rest)
  step (suc i) name spurious w (k ∷ rest) =
      let (w', rest') = step i name spurious w rest in (w', k ∷ rest')

  unfoldable pub run_all : List (ℕ × String × Bool) → World W → List Caller → World W × List Caller
  run_all [] w callers = (w, callers)
  run_all ((i, name, spurious) ∷ rest) w callers =
      let (w', callers') = step i name spurious w callers in run_all rest w' callers'

abbrev pub same_method : GuardedMethod → GuardedMethod → Bool
same_method send_raw_transaction send_raw_transaction = true
same_method get_transaction_count get_transaction_count = true
same_method send_raw_transaction_sync send_raw_transaction_sync = true
same_method _ _ = false

-- The caller as the gate of the method sees it: idle while it is at another gate.
abbrev pub seen_by : GuardedMethod → Caller → Thread
seen_by m k = if same_method m k.method then k.thread else idle

module _ (config : LoadRpcBackpressureConfig) (m : GuardedMethod) where
  abbrev pub is_at : Option GuardedMethod → Bool
  is_at none = false
  is_at (some m') = same_method m m'

  abbrev pub is_step_at : ℕ → String → List Caller → Bool
  is_step_at i name [] = false
  is_step_at zero name (k ∷ rest) = is_at (gate_for config k name)
  is_step_at (suc i) name (k ∷ rest) = is_step_at i name rest

  -- Of the steps those at the gate of the method.
  unfoldable pub steps_at :
      {W : Type 0} → List (ℕ × String × Bool) → World W → List Caller → List (ℕ × Bool)
  steps_at [] w callers = []
  steps_at ((i, name, spurious) ∷ rest) w callers =
      let later =
        steps_at rest (step config i name spurious w callers).0
          (step config i name spurious w callers).1 in
      if is_step_at i name callers then (i, spurious) ∷ later else later
