-- ===== src/Backpressure/Service.antt =====
-- `LoadRpcBackpressureService` of rpc/backpressure.rs, from the side of one caller: the attempt at the
-- gate and the return of the permit are a step each, and the wrapped service may change the gates in
-- between, as other callers do.
use load_reth.Common.{
  ℕ, ◌-◌, Bool, true, false, ◌&&◌, Option, none, some, List, [], ◌∷◌, Result, ok, err, String, leb,
  ◌==◌, if◌then◌else◌, is_some, add64, sub64, any, ℤ, negsuc,
}
use load_reth.Backpressure.Config.{
  GuardedMethod, send_raw_transaction, get_transaction_count, send_raw_transaction_sync,
  LoadRpcBackpressureConfig, limit_for, classify_method, rpc_method_name,
}
use load_reth.Backpressure.Gate.{Gate, new_gate}

-- The gates of `LoadRpcBackpressureState` with their metrics, and the state outside.
pub record World (W : Type 0) : Type 0 where
  pub send_raw_transaction_gate : Gate
  pub get_transaction_count_gate : Gate
  pub send_raw_transaction_sync_gate : Gate
  pub outside : W

-- `LoadRpcBackpressureState::new`; the limits of the gates are those of the configuration.
unfoldable pub new_world : {W : Type 0} → W → World W
unfolding new_gate
new_world outside = record {
  send_raw_transaction_gate = new_gate;
  get_transaction_count_gate = new_gate;
  send_raw_transaction_sync_gate = new_gate;
  outside = outside;
}

unfoldable pub gate_of : {W : Type 0} → World W → GuardedMethod → Gate
gate_of w send_raw_transaction = w.send_raw_transaction_gate
gate_of w get_transaction_count = w.get_transaction_count_gate
gate_of w send_raw_transaction_sync = w.send_raw_transaction_sync_gate

-- A write through the reference that `gate` returns.
unfoldable pub with_gate : {W : Type 0} → World W → GuardedMethod → Gate → World W
with_gate w send_raw_transaction g = record w { send_raw_transaction_gate = g }
with_gate w get_transaction_count g = record w { get_transaction_count_gate = g }
with_gate w send_raw_transaction_sync g = record w { send_raw_transaction_sync_gate = g }

pub data Entry (Req Note : Type 0) : Type 0 where
  call_entry : Req → Entry Req Note
  note_entry : Note → Entry Req Note
  bad_entry : String → Entry Req Note

pub record OverloadErrorData : Type 0 where
  pub method : String
  pub limit : ℕ

-- jsonrpsee's `ErrorObjectOwned`, with the overload's data.
pub record ErrorObject : Type 0 where
  pub code : ℤ
  pub message : String
  pub payload : Option OverloadErrorData

abbrev pub rpc_backpressure_overload_code : ℤ
rpc_backpressure_overload_code = negsuc 32_004

abbrev pub rpc_backpressure_overload_message : String
rpc_backpressure_overload_message = "load-reth RPC overload: method concurrency limit reached"

-- The wrapped service, and jsonrpsee's responses; `error` takes the id of the request.
pub record Service (W Req Note Resp Builder : Type 0) : Type 0 where
  pub method_name : Req → String
  pub call : Req → World W → Resp × World W
  pub batch : List (Entry Req Note) → World W → Resp × World W
  pub notification : Note → World W → World W
  pub error : Req → ErrorObject → Resp
  pub error_of : String → Resp
  pub new_with_limit : ℕ → Builder
  pub append : Builder → Resp → Result Resp Builder
  pub is_empty : Builder → Bool
  pub from_batch : Builder → Resp
  pub notification_response : Resp

module _ {W Req Note Resp Builder : Type 0} (sv : Service W Req Note Resp Builder)
    (config : LoadRpcBackpressureConfig) where
  abbrev pub rejected_gate : Gate → Gate
  rejected_gate g = record g { rejected = add64 g.rejected 1 }

  abbrev pub entered_gate : Gate → Gate
  entered_gate g = record g {
    inflight = add64 g.inflight 1;
    accepted = add64 g.accepted 1;
    gauge = add64 g.inflight 1;
  }

  -- `release`
  abbrev pub released_gate : Gate → Gate
  released_gate g = record g {
    inflight = if g.inflight == 0 then 0 else sub64 g.inflight 1;
    gauge = g.inflight - 1;
  }

  -- `return inner.call(req).await`, and the drop of the permit.
  abbrev pub finish_call : GuardedMethod → Resp × World W → Resp × World W
  finish_call m (r, w) = (r, with_gate w m (released_gate (gate_of w m)))

  unfoldable pub overload_response : Req → GuardedMethod → Resp
  overload_response req method = sv.error req (record {
    code = rpc_backpressure_overload_code;
    message = rpc_backpressure_overload_message;
    payload = some (record { method = rpc_method_name method; limit = limit_for config method });
  })

  -- The `if let` on the classified method.
  unfoldable pub call_as : Option GuardedMethod → Req → World W → Resp × World W
  call_as none req w = sv.call req w
  call_as (some m) req w =
      if leb (limit_for config m) (gate_of w m).inflight
      then (overload_response req m, with_gate w m (rejected_gate (gate_of w m)))
      else finish_call m (sv.call req (with_gate w m (entered_gate (gate_of w m))))

  unfoldable pub call : Req → World W → Resp × World W
  call req w = call_as (classify_method config (sv.method_name req)) req w

  abbrev pub is_guarded : Entry Req Note → Bool
  is_guarded (call_entry req) = is_some (classify_method config (sv.method_name req))
  is_guarded (note_entry n) = false
  is_guarded (bad_entry e) = false

  -- What is returned at the end of the loop.
  abbrev pub close : Builder → Bool → Resp
  close b got_notification =
      if sv.is_empty b && got_notification then sv.notification_response else sv.from_batch b

  -- `if let Err(err) = batch_rp.append(rp) { return err }`; `go` is the rest of the loop.
  abbrev pub appended :
      (Builder → World W → Resp × World W) → World W → Result Resp Builder → Resp × World W
  appended go w (ok b) = go b w
  appended go w (err e) = (e, w)

  unfoldable pub batch_loop : List (Entry Req Note) → Bool → Builder → World W → Resp × World W
  batch_loop [] noted b w = (close b noted, w)
  batch_loop (call_entry req ∷ rest) noted b w =
      appended (batch_loop rest noted) (call req w).1 (sv.append b (call req w).0)
  batch_loop (note_entry n ∷ rest) noted b w = batch_loop rest true b (sv.notification n w)
  batch_loop (bad_entry e ∷ rest) noted b w =
      appended (batch_loop rest noted) w (sv.append b (sv.error_of e))

  unfoldable pub batch : List (Entry Req Note) → World W → Resp × World W
  batch entries w =
      if any is_guarded entries
      then batch_loop entries false (sv.new_with_limit config.batch_response_limit_bytes) w
      else sv.batch entries w
