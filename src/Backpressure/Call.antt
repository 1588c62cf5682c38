-- ===== src/Backpressure/Call.antt =====
-- How one call is answered, and what it does to the gates.
use load_reth.Common.{
  ℕ, ◌+◌, ◌-◌, ◌≡◌, ◌≢◌, refl, ◌∙◌, ◌⊎◌, inl, inr, ◌<◌, ◌≤◌, some, String, leb, add64, arith,
  u64_mod, Bool-cases, Option-cases, negsuc,
}
use load_reth.Backpressure.Config.{
  GuardedMethod, send_raw_transaction, get_transaction_count, send_raw_transaction_sync,
  LoadRpcBackpressureConfig, limit_for, classify_method, rpc_method_name,
}
use load_reth.Backpressure.Gate.{Gate}
use load_reth.Backpressure.Methods.{classify_method_iff}
use load_reth.Backpressure.Service.{
  World, Service, call, gate_of, with_gate, rejected_gate, entered_gate, released_gate, call_as,
  overload_response,
}

-- The method is called `name`, and the configuration allows it `limit` calls, at least one.
abbrev pub IsGuarded : LoadRpcBackpressureConfig → String → GuardedMethod → ℕ → Type 0
IsGuarded config name send_raw_transaction limit =
    (name ≡ "eth_sendRawTransaction") × (limit ≡ config.send_raw_transaction_limit) × (0 < limit)
IsGuarded config name get_transaction_count limit =
    (name ≡ "eth_getTransactionCount") × (limit ≡ config.get_transaction_count_limit) × (0 < limit)
IsGuarded config name send_raw_transaction_sync limit =
    (name ≡ "eth_sendRawTransactionSync")
    × (limit ≡ config.send_raw_transaction_sync_limit)
    × (0 < limit)

classified-IsGuarded :
    (config : LoadRpcBackpressureConfig) (name : String) (m : GuardedMethod)
    → classify_method config name ≡ some m
    → IsGuarded config name m (limit_for config m)
unfolding limit_for rpc_method_name
classified-IsGuarded config name send_raw_transaction h =
    let (named, on) = (classify_method_iff config name send_raw_transaction).0 h in
    (named, refl, on)
classified-IsGuarded config name get_transaction_count h =
    let (named, on) = (classify_method_iff config name get_transaction_count).0 h in
    (named, refl, on)
classified-IsGuarded config name send_raw_transaction_sync h =
    let (named, on) = (classify_method_iff config name send_raw_transaction_sync).0 h in
    (named, refl, on)

IsGuarded-classified :
    (config : LoadRpcBackpressureConfig) (name : String) (m : GuardedMethod) (limit : ℕ)
    → IsGuarded config name m limit
    → classify_method config name ≡ some m
unfolding limit_for rpc_method_name
IsGuarded-classified config name send_raw_transaction limit (named, same, on) =
    (classify_method_iff config name send_raw_transaction).1 (named, omega (arith, same, on))
IsGuarded-classified config name get_transaction_count limit (named, same, on) =
    (classify_method_iff config name get_transaction_count).1 (named, omega (arith, same, on))
IsGuarded-classified config name send_raw_transaction_sync limit (named, same, on) =
    (classify_method_iff config name send_raw_transaction_sync).1 (named, omega (arith, same, on))

-- From `w` to `w'` the gate of the method becomes `g`, and nothing else changes.
pub record OnlyGate {W : Type 0} (m : GuardedMethod) (g : Gate) (w w' : World W) : Type 0 where
  pub at : gate_of w' m ≡ g
  pub others : (n : GuardedMethod) → n ≢ m → gate_of w' n ≡ gate_of w n
  pub outside : w'.outside ≡ w.outside

gate_of-with_gate :
    {W : Type 0} (w : World W) (m : GuardedMethod) (g : Gate) → gate_of (with_gate w m g) m ≡ g
unfolding gate_of with_gate
gate_of-with_gate w send_raw_transaction g = refl
gate_of-with_gate w get_transaction_count g = refl
gate_of-with_gate w send_raw_transaction_sync g = refl

with_gate-others :
    {W : Type 0} (w : World W) (m : GuardedMethod) (g : Gate) (n : GuardedMethod)
    → n ≢ m
    → gate_of (with_gate w m g) n ≡ gate_of w n
unfolding gate_of with_gate
with_gate-others w send_raw_transaction g send_raw_transaction h = absurd (h refl)
with_gate-others w send_raw_transaction g get_transaction_count h = refl
with_gate-others w send_raw_transaction g send_raw_transaction_sync h = refl
with_gate-others w get_transaction_count g send_raw_transaction h = refl
with_gate-others w get_transaction_count g get_transaction_count h = absurd (h refl)
with_gate-others w get_transaction_count g send_raw_transaction_sync h = refl
with_gate-others w send_raw_transaction_sync g send_raw_transaction h = refl
with_gate-others w send_raw_transaction_sync g get_transaction_count h = refl
with_gate-others w send_raw_transaction_sync g send_raw_transaction_sync h = absurd (h refl)

with_gate-outside :
    {W : Type 0} (w : World W) (m : GuardedMethod) (g : Gate)
    → (with_gate w m g).outside ≡ w.outside
unfolding with_gate
with_gate-outside w send_raw_transaction g = refl
with_gate-outside w get_transaction_count g = refl
with_gate-outside w send_raw_transaction_sync g = refl

with_gate-OnlyGate :
    {W : Type 0} (w : World W) (m : GuardedMethod) {g g' : Gate}
    → g ≡ g'
    → OnlyGate m g' w (with_gate w m g)
with_gate-OnlyGate w m {g} same = record {
  at = gate_of-with_gate w m g ∙ same;
  others = with_gate-others w m g;
  outside = with_gate-outside w m g;
}

module _ {W Req Note Resp Builder : Type 0} (sv : Service W Req Note Resp Builder)
    (config : LoadRpcBackpressureConfig) (req : Req) (w : World W) where
  -- The call is refused: the error says which method and which limit, and is counted.
  pub record IsRefused (m : GuardedMethod) (limit : ℕ) (r : Resp × World W) : Type 0 where
    pub full : limit ≤ (gate_of w m).inflight
    pub answer :
        r.0
        ≡ sv.error req (record {
          code = negsuc 32_004;
          message = "load-reth RPC overload: method concurrency limit reached";
          payload = some (record { method = sv.method_name req; limit = limit });
        })
    pub counted :
        OnlyGate m (record (gate_of w m) { rejected = add64 (gate_of w m).rejected 1 }) w r.1

  -- The call is the service's own, from a world in which it is counted and in flight, and takes
  -- itself out of the number that is in flight when the service is done.
  pub record IsServed (m : GuardedMethod) (limit : ℕ) (r : Resp × World W) : Type 0 where
    pub room : (gate_of w m).inflight < limit
    pub entered : World W
    pub counted :
        OnlyGate m
          (record (gate_of w m) {
            inflight = (gate_of w m).inflight + 1;
            accepted = add64 (gate_of w m).accepted 1;
            gauge = (gate_of w m).inflight + 1;
          })
          w
          entered
    pub answer : r.0 ≡ (sv.call req entered).0
    pub returned :
        OnlyGate m
          (record (gate_of (sv.call req entered).1 m) {
            inflight = (gate_of (sv.call req entered).1 m).inflight - 1;
            gauge = (gate_of (sv.call req entered).1 m).inflight - 1;
          })
          (sv.call req entered).1
          r.1

  refuse :
      (m : GuardedMethod)
      → limit_for config m ≤ (gate_of w m).inflight
      → sv.method_name req ≡ rpc_method_name m
      → IsRefused m
          (limit_for config m)
          (overload_response sv config req m, with_gate w m (rejected_gate sv config (gate_of w m)))
  unfolding overload_response
  refuse m full named = record {
    full = full;
    answer = rw named refl;
    counted = with_gate-OnlyGate w m refl;
  }

  released :
      (g : Gate)
      → g.inflight < u64_mod
      → released_gate sv config g ≡ record g { inflight = g.inflight - 1; gauge = g.inflight - 1 }
  released g small = ground arith

  entering :
      (g : Gate)
      → g.inflight + 1 < u64_mod
      → entered_gate sv config g ≡ record g {
        inflight = g.inflight + 1;
        accepted = add64 g.accepted 1;
        gauge = g.inflight + 1;
      }
  entering g small = ground arith

  -- One call, whatever the wrapped service does and whoever else changes the gates while it runs.
  -- The limits and the numbers in flight fit a `u64`. If the name is not that of a guarded method
  -- with a limit above zero, the call is the service's own. If as many calls as the method's limit
  -- are in flight, the answer is the overload error with the method's name and its limit, and one
  -- refusal more is counted at this method's gate, with nothing else changed. Else it is the
  -- service's answer from the world in which this gate has one call more in flight, accepted and
  -- shown in the gauge; and when the service is done, this gate alone has one call fewer in flight.
  pub call_cases :
      ((m : GuardedMethod) → limit_for config m < u64_mod)
      → ((x : World W) (m : GuardedMethod) → (gate_of (sv.call req x).1 m).inflight < u64_mod)
      → (((m : GuardedMethod) (limit : ℕ) → ¬ IsGuarded config (sv.method_name req) m limit)
          × (call sv config req w ≡ sv.call req w))
        ⊎ ((m : GuardedMethod) × (limit : ℕ) × IsGuarded config (sv.method_name req) m limit
            × (IsRefused m limit (call sv config req w) ⊎ IsServed m limit (call sv config req w)))
  unfolding call call_as
  call_cases fits small = elim (Option-cases (classify_method config (sv.method_name req))) [
    | inl unguarded ↦ inl (
      λ m limit h. cc (IsGuarded-classified config (sv.method_name req) m limit h),
      rw unguarded refl,
    )
    | inr (m, guard) ↦ inr (
      m,
      limit_for config m,
      classified-IsGuarded config (sv.method_name req) m guard,
      elim (Bool-cases (leb (limit_for config m) (gate_of w m).inflight)) [
        | inl full ↦ inl (
            rw (guard, full)
              (refuse m (ground arith)
                ((classify_method_iff config (sv.method_name req) m).0 guard).0))
        | inr room ↦
            let below : (gate_of w m).inflight < limit_for config m = ground arith in
            inr (
              rw (guard, room)
                (record {
                  room = below;
                  entered = with_gate w m (entered_gate sv config (gate_of w m));
                  counted = with_gate-OnlyGate w m (entering (gate_of w m) (omega (arith, fits m)));
                  answer = refl;
                  returned = with_gate-OnlyGate _ m (
                      released (gate_of (after m) m)
                        (small (with_gate w m (entered_gate sv config (gate_of w m))) m));
                }))
      ],
    )
  ]
    where
      after : GuardedMethod → World W
      after m = (sv.call req (with_gate w m (entered_gate sv config (gate_of w m)))).1
