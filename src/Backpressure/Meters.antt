-- ===== src/Backpressure/Meters.antt =====
-- `LoadRpcBackpressureMetrics` of rpc/backpressure.rs: a counter or gauge is the one that the recorder
-- of the process keeps for its name and label.
use load_reth.Common.{ℕ, ◌≡◌, refl, Bool, true, false, ◌&&◌, String, if◌then◌else◌, add64}
use text.Mathlib.Text.{◌==◌ as str_eq}
use load_reth.Backpressure.Config.{
  GuardedMethod, send_raw_transaction, get_transaction_count, send_raw_transaction_sync,
  rpc_method_name,
}

-- A name, and the label "method".
abbrev pub Key : Type 0
Key = String × String

abbrev pub same_key : Key → Key → Bool
same_key (name, label) (name', label') = str_eq name name' && str_eq label label'

pub record Recorder : Type 0 where
  pub counters : Key → ℕ
  pub gauges : Key → ℕ

abbrev pub increment : Recorder → Key → Recorder
increment r key = record r {
  counters = λ k. if same_key key k then add64 (r.counters k) 1 else r.counters k;
}

abbrev pub set : Recorder → Key → ℕ → Recorder
set r key value = record r { gauges = λ k. if same_key key k then value else r.gauges k }

pub record LoadRpcBackpressureMetrics : Type 0 where
  pub accepted_send_raw_transaction : Key
  pub accepted_get_transaction_count : Key
  pub accepted_send_raw_transaction_sync : Key
  pub rejected_send_raw_transaction : Key
  pub rejected_get_transaction_count : Key
  pub rejected_send_raw_transaction_sync : Key
  pub inflight_send_raw_transaction : Key
  pub inflight_get_transaction_count : Key
  pub inflight_send_raw_transaction_sync : Key

-- `LoadRpcBackpressureMetrics::new`
unfoldable pub new_metrics : LoadRpcBackpressureMetrics
new_metrics = record {
  accepted_send_raw_transaction =
      ("load_reth_rpc_backpressure_accepted_total", rpc_method_name send_raw_transaction);
  accepted_get_transaction_count =
      ("load_reth_rpc_backpressure_accepted_total", rpc_method_name get_transaction_count);
  accepted_send_raw_transaction_sync =
      ("load_reth_rpc_backpressure_accepted_total", rpc_method_name send_raw_transaction_sync);
  rejected_send_raw_transaction =
      ("load_reth_rpc_backpressure_rejected_total", rpc_method_name send_raw_transaction);
  rejected_get_transaction_count =
      ("load_reth_rpc_backpressure_rejected_total", rpc_method_name get_transaction_count);
  rejected_send_raw_transaction_sync =
      ("load_reth_rpc_backpressure_rejected_total", rpc_method_name send_raw_transaction_sync);
  inflight_send_raw_transaction =
      ("load_reth_rpc_backpressure_inflight", rpc_method_name send_raw_transaction);
  inflight_get_transaction_count =
      ("load_reth_rpc_backpressure_inflight", rpc_method_name get_transaction_count);
  inflight_send_raw_transaction_sync =
      ("load_reth_rpc_backpressure_inflight", rpc_method_name send_raw_transaction_sync);
}

unfoldable pub accepted_counter : LoadRpcBackpressureMetrics → GuardedMethod → Key
accepted_counter m send_raw_transaction = m.accepted_send_raw_transaction
accepted_counter m get_transaction_count = m.accepted_get_transaction_count
accepted_counter m send_raw_transaction_sync = m.accepted_send_raw_transaction_sync

unfoldable pub rejected_counter : LoadRpcBackpressureMetrics → GuardedMethod → Key
rejected_counter m send_raw_transaction = m.rejected_send_raw_transaction
rejected_counter m get_transaction_count = m.rejected_get_transaction_count
rejected_counter m send_raw_transaction_sync = m.rejected_send_raw_transaction_sync

unfoldable pub inflight_gauge : LoadRpcBackpressureMetrics → GuardedMethod → Key
inflight_gauge m send_raw_transaction = m.inflight_send_raw_transaction
inflight_gauge m get_transaction_count = m.inflight_get_transaction_count
inflight_gauge m send_raw_transaction_sync = m.inflight_send_raw_transaction_sync

unfoldable pub record_accepted : LoadRpcBackpressureMetrics → GuardedMethod → Recorder → Recorder
record_accepted m method r = increment r (accepted_counter m method)

unfoldable pub record_rejected : LoadRpcBackpressureMetrics → GuardedMethod → Recorder → Recorder
record_rejected m method r = increment r (rejected_counter m method)

unfoldable pub record_inflight :
    LoadRpcBackpressureMetrics → GuardedMethod → ℕ → Recorder → Recorder
record_inflight m method inflight r = set r (inflight_gauge m method) inflight

-- What an operator sees of a method.
pub record Meter : Type 0 where
  pub accepted : ℕ
  pub rejected : ℕ
  pub inflight : ℕ

unfoldable pub meter_of : LoadRpcBackpressureMetrics → Recorder → GuardedMethod → Meter
meter_of m r method = record {
  accepted = r.counters (accepted_counter m method);
  rejected = r.counters (rejected_counter m method);
  inflight = r.gauges (inflight_gauge m method);
}

abbrev pub same_method : GuardedMethod → GuardedMethod → Bool
same_method send_raw_transaction send_raw_transaction = true
same_method get_transaction_count get_transaction_count = true
same_method send_raw_transaction_sync send_raw_transaction_sync = true
same_method _ _ = false

-- The metrics of the methods do not mix. Recording an accepted call, a refusal or a number in flight
-- of one method adds one to, or sets, that number of that method, and leaves the other two numbers
-- and every other method's as they were: the nine names and labels are different.
pub record_separate :
    (r : Recorder) (m k : GuardedMethod) (n : ℕ)
    → let before = meter_of new_metrics r k in
      (meter_of new_metrics (record_accepted new_metrics m r) k ≡ (
        if same_method m k then record before { accepted = add64 before.accepted 1 } else before))
      × (meter_of new_metrics (record_rejected new_metrics m r) k ≡ (
          if same_method m k then record before { rejected = add64 before.rejected 1 } else before))
      × (meter_of new_metrics (record_inflight new_metrics m n r) k
          ≡ (if same_method m k then record before { inflight = n } else before))
unfolding new_metrics accepted_counter rejected_counter inflight_gauge record_accepted
    record_rejected record_inflight meter_of rpc_method_name
record_separate r send_raw_transaction send_raw_transaction n = (refl, refl, refl)
record_separate r send_raw_transaction get_transaction_count n = (refl, refl, refl)
record_separate r send_raw_transaction send_raw_transaction_sync n = (refl, refl, refl)
record_separate r get_transaction_count send_raw_transaction n = (refl, refl, refl)
record_separate r get_transaction_count get_transaction_count n = (refl, refl, refl)
record_separate r get_transaction_count send_raw_transaction_sync n = (refl, refl, refl)
record_separate r send_raw_transaction_sync send_raw_transaction n = (refl, refl, refl)
record_separate r send_raw_transaction_sync get_transaction_count n = (refl, refl, refl)
record_separate r send_raw_transaction_sync send_raw_transaction_sync n = (refl, refl, refl)
