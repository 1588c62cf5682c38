-- ===== src/Backpressure/Races.antt =====
-- Two threads at a gate, one of which is outrun by the other, and two that take turns.
use load_reth.Common.{
  ℕ, ◌≡◌, refl, ◌≤◌, ◌*◌, Bool, false, List, [], ◌∷◌, ◌++◌, arith, replicate, sum_of, map, String,
}
use load_reth.Backpressure.Gate.{idle, new_gate, try_enter, repair, advance, advance_at, run}
use load_reth.Backpressure.Config.{
  send_raw_transaction, default_config, limit_for, classify_method, enabled, from_rpc_method,
}
use load_reth.Backpressure.Service.{new_world, gate_of, with_gate}
use load_reth.Backpressure.Capacity.{permits}
use load_reth.Backpressure.System.{run_all, step, step_at_gate, seen_by, steps_at}
use load_reth.Backpressure.Projection.{SeenAll, waiting, run_all-projects, run_all_capacity}
use load_reth.Backpressure.Semaphore.{trace, event, event_at}
use load_reth.Backpressure.Retries.{retries, outrun, outrun_at, is_move, run_lock_free}
use load_reth.Backpressure.Freshness.{OneWriter, pending, run_fresh_gauge}

abbrev steps : ℕ → ℕ → List (ℕ × Bool)
steps i n = replicate n (i, false)

-- Both read zero, the first gets in, and the second's exchange fails.
abbrev overtaken : List (ℕ × Bool)
overtaken = steps 0 2 ++ steps 1 2 ++ steps 0 1 ++ steps 1 1

one_retry : retries 4 overtaken new_gate (replicate 2 idle) ≡ 1
unfolding retries outrun_at outrun advance_at advance try_enter new_gate
one_retry = refl

one_move : sum_of is_move (trace 4 overtaken new_gate (replicate 2 idle)) ≡ 1
unfolding trace event_at event advance_at advance try_enter new_gate
one_move = refl

run_lock_free_example :
    retries 4 overtaken new_gate (replicate 2 idle)
    ≤ 2 * sum_of is_move (trace 4 overtaken new_gate (replicate 2 idle))
run_lock_free_example = run_lock_free 4 2 overtaken (omega arith)

-- Both get in and out, each with its write of the gauge done before the other changes the counter.
abbrev turns : List (ℕ × Bool)
turns = steps 0 5 ++ steps 1 5 ++ steps 0 3

in_turn : OneWriter 4 turns new_gate (replicate 2 idle)
unfolding OneWriter advance_at advance try_enter repair new_gate
in_turn = ground arith

settled : sum_of pending (run 4 turns new_gate (replicate 2 idle)).1 ≡ 0
unfolding run advance_at advance try_enter repair new_gate
settled = refl

run_fresh_gauge_example :
    (run 4 turns new_gate (replicate 2 idle)).0.gauge
    ≡ (run 4 turns new_gate (replicate 2 idle)).0.inflight
run_fresh_gauge_example = run_fresh_gauge 4 2 turns (omega arith) in_turn settled

-- One caller sends a transaction while the other counts transactions, and asks for a method that is
-- not guarded at last.
abbrev mixed : List (ℕ × String × Bool)
mixed =
    (0, "eth_sendRawTransaction", false)
    ∷ (1, "eth_getTransactionCount", false)
    ∷ (0, "", false)
    ∷ (1, "", false)
    ∷ (1, "", false)
    ∷ (0, "", false)
    ∷ (2, "eth_call", false)
    ∷ []

sent_beside :
    steps_at default_config send_raw_transaction mixed (new_world tt) (waiting 3) ≡ steps 0 3
unfolding steps_at step step_at_gate classify_method enabled from_rpc_method limit_for advance
    try_enter gate_of with_gate new_world new_gate default_config
sent_beside = refl

run_all-projects_example :
    SeenAll default_config send_raw_transaction
      (run_all default_config mixed (new_world tt) (waiting 3))
    ≡ run
        (limit_for default_config send_raw_transaction)
        (steps_at default_config send_raw_transaction mixed (new_world tt) (waiting 3))
        (gate_of (new_world tt) send_raw_transaction)
        (map (seen_by send_raw_transaction) (waiting 3))
run_all-projects_example =
    run_all-projects default_config send_raw_transaction mixed (new_world tt) (waiting 3)

run_all_capacity_example :
    let (w, callers) = run_all default_config mixed (new_world tt) (waiting 3) in
    ((gate_of w send_raw_transaction).inflight
      ≡ sum_of permits (map (seen_by send_raw_transaction) callers))
    × (sum_of permits (map (seen_by send_raw_transaction) callers)
        ≤ limit_for default_config send_raw_transaction)
unfolding limit_for default_config
run_all_capacity_example =
    run_all_capacity default_config tt 3 mixed send_raw_transaction (omega arith)
