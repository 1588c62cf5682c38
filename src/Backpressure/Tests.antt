-- ===== src/Backpressure/Tests.antt =====
-- Two threads at a gate for one call, and the method names.
use load_reth.Common.{
  true, ◌+◌, ◌%◌, Bool, String, Result, ok, any, u64_mod, ℕ, ◌≡◌, refl, ◌⊎◌, ◌≤◌, ◌<◌, false, some,
  List, [], ◌∷◌, arith, replicate, sum_of, All,
}
use load_reth.Backpressure.Config.{
  GuardedMethod, send_raw_transaction, get_transaction_count, send_raw_transaction_sync,
  default_config, classify_method, limit_for, enabled, from_rpc_method,
}
use load_reth.Backpressure.Gate.{Gate, idle, holding, new_gate, try_enter, advance, advance_at, run}
use load_reth.Backpressure.Service.{
  World, Entry, call_entry, note_entry, Service, gate_of, call, is_guarded, batch,
}
use load_reth.Backpressure.Semaphore.{
  replay, trace, is_enter, is_refuse, unrecorded_enter, unrecorded_refuse,
}
use load_reth.Backpressure.Refinement.{run_refines}
use load_reth.Backpressure.Sequence.{IsSequential, batch-IsSequential}
use load_reth.Backpressure.Meters.{Recorder, Meter}
use load_reth.Backpressure.Call.{IsGuarded, IsRefused, IsServed, call_cases}
use load_reth.Backpressure.Capacity.{permits, IsSound, run_capacity}

-- Both read zero, the first gets in, the second's exchange fails, and on its next round it is refused.
abbrev race : List (ℕ × Bool)
race =
    (0, false)
    ∷ (1, false)
    ∷ (0, false)
    ∷ (1, false)
    ∷ (0, false)
    ∷ (1, false)
    ∷ (1, false)
    ∷ (1, false)
    ∷ (0, false)
    ∷ (0, false)
    ∷ []

raced :
    run 1 race new_gate (replicate 2 idle)
    ≡ (record { inflight = 1; accepted = 1; rejected = 1; gauge = 1 }, holding ∷ idle ∷ [])
unfolding run advance_at advance try_enter new_gate
raced = refl

run_capacity_example :
    ((run 1 race new_gate (replicate 2 idle)).0.inflight
      ≡ sum_of permits (run 1 race new_gate (replicate 2 idle)).1)
    × (sum_of permits (run 1 race new_gate (replicate 2 idle)).1 ≤ 1)
    × All IsSound (run 1 race new_gate (replicate 2 idle)).1
run_capacity_example = run_capacity 1 (omega arith) 2 race

run_refines_example :
    (replay 1 (trace 1 race new_gate (replicate 2 idle)) 0
      ≡ some (run 1 race new_gate (replicate 2 idle)).0.inflight)
    × (((run 1 race new_gate (replicate 2 idle)).0.accepted
            + sum_of unrecorded_enter (run 1 race new_gate (replicate 2 idle)).1)
          % u64_mod
        ≡ sum_of is_enter (trace 1 race new_gate (replicate 2 idle)) % u64_mod)
    × (((run 1 race new_gate (replicate 2 idle)).0.rejected
            + sum_of (unrecorded_refuse 1) (run 1 race new_gate (replicate 2 idle)).1)
          % u64_mod
        ≡ sum_of is_refuse (trace 1 race new_gate (replicate 2 idle)) % u64_mod)
run_refines_example = run_refines 1 2 race (omega arith)

abbrev busy : Gate
busy = record { inflight = 3; accepted = 5; rejected = 0; gauge = 3 }

abbrev empty_batch : List String → Bool
empty_batch [] = true
empty_batch (r ∷ b) = false

-- A service that answers a request with its method's name and changes no gate.
abbrev service : Service ℕ String ℕ String (List String)
service = record {
  method_name = λ req. req;
  call = λ req w. (req, record w { outside = w.outside + 1 });
  batch = λ entries w. ("a batch", w);
  notification = λ n w. w;
  error = λ req e. e.message;
  error_of = λ e. e;
  new_with_limit = λ limit. [];
  append = λ b r. ok (r ∷ b);
  is_empty = empty_batch;
  from_batch = λ b. "the batch";
  notification_response = "";
}

fills :
    (b b' : List String) (r : String)
    → Path (Result String (List String)) (ok (r ∷ b)) (ok b')
    → empty_batch b' ≡ false
fills b [] r h = cc
fills b (x ∷ xs) r h = refl

abbrev world : World ℕ
world = record {
  send_raw_transaction_gate = busy;
  get_transaction_count_gate = busy;
  send_raw_transaction_sync_gate = busy;
  outside = 0;
}

-- The same service, while whose answer another caller leaves three calls in flight at every gate.
abbrev bounded : Service ℕ String ℕ String (List String)
bounded = record service { call = λ req w. (req, record world { outside = w.outside + 1 }) }

others_busy :
    (x : World ℕ) (m : GuardedMethod)
    → (gate_of (record world { outside = x.outside + 1 }) m).inflight < u64_mod
unfolding gate_of
others_busy x send_raw_transaction = omega arith
others_busy x get_transaction_count = omega arith
others_busy x send_raw_transaction_sync = omega arith

abbrev entries : List (Entry String ℕ)
entries = note_entry 4 ∷ call_entry "eth_sendRawTransaction" ∷ []

limits_fit : (m : GuardedMethod) → limit_for default_config m < u64_mod
unfolding limit_for default_config
limits_fit send_raw_transaction = omega arith
limits_fit get_transaction_count = omega arith
limits_fit send_raw_transaction_sync = omega arith

call_cases_example :
    (((m : GuardedMethod) (limit : ℕ)
        → ¬ IsGuarded default_config "eth_getTransactionCount" m limit)
      × (call bounded default_config "eth_getTransactionCount" world
          ≡ bounded.call "eth_getTransactionCount" world))
    ⊎ ((m : GuardedMethod) × (limit : ℕ) × IsGuarded default_config "eth_getTransactionCount" m
          limit
        × (IsRefused bounded default_config "eth_getTransactionCount" world m limit
              (call bounded default_config "eth_getTransactionCount" world)
            ⊎ IsServed bounded default_config "eth_getTransactionCount" world m limit
                (call bounded default_config "eth_getTransactionCount" world)))
call_cases_example =
    call_cases bounded default_config "eth_getTransactionCount" world limits_fit others_busy

has_guarded : any (is_guarded service default_config) entries ≡ true
unfolding classify_method enabled from_rpc_method limit_for default_config
has_guarded = refl

batch-IsSequential_example :
    IsSequential service default_config entries false [] world
      (batch service default_config entries world)
batch-IsSequential_example = batch-IsSequential service default_config entries world has_guarded

abbrev recorder : Recorder
recorder = record { counters = λ key. 6; gauges = λ key. 2 }

abbrev metered : Meter
metered = record { accepted = 6; rejected = 6; inflight = 2 }
