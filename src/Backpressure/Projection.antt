-- ===== src/Backpressure/Projection.antt =====
-- Each gate of the whole state runs as if it were alone.
use load_reth.Common.{
  ℕ, zero, suc, ◌≡◌, refl, sym, ap, ◌∙◌, ◌≤◌, ◌<◌, ◌⊎◌, inl, inr, Bool, true, false, Option, none,
  some, List, [], ◌∷◌, String, map, if◌then◌else◌, sum_of, replicate, u64_mod, Bool-cases,
}
use load_reth.Backpressure.Config.{
  GuardedMethod, send_raw_transaction, get_transaction_count, send_raw_transaction_sync,
  LoadRpcBackpressureConfig, limit_for,
}
use load_reth.Backpressure.Gate.{
  Gate, Thread, idle, loading, loaded, entered, accounting, holding, released, reporting, new_gate,
  advance, advance_at, run,
}
use load_reth.Backpressure.Service.{World, new_world, gate_of, with_gate}
use load_reth.Backpressure.Capacity.{permits, run_capacity}
use load_reth.Backpressure.System.{
  Caller, next_gate, gate_for, step_at_gate, step, run_all, same_method, seen_by, is_at, is_step_at,
  steps_at,
}

gate_of-with_gate :
    {W : Type 0} (w : World W) (m m' : GuardedMethod) (g : Gate)
    → gate_of (with_gate w m' g) m ≡ (if same_method m m' then g else gate_of w m)
unfolding gate_of with_gate
gate_of-with_gate w send_raw_transaction send_raw_transaction g = refl
gate_of-with_gate w send_raw_transaction get_transaction_count g = refl
gate_of-with_gate w send_raw_transaction send_raw_transaction_sync g = refl
gate_of-with_gate w get_transaction_count send_raw_transaction g = refl
gate_of-with_gate w get_transaction_count get_transaction_count g = refl
gate_of-with_gate w get_transaction_count send_raw_transaction_sync g = refl
gate_of-with_gate w send_raw_transaction_sync send_raw_transaction g = refl
gate_of-with_gate w send_raw_transaction_sync get_transaction_count g = refl
gate_of-with_gate w send_raw_transaction_sync send_raw_transaction_sync g = refl

same_method-≡ : (m m' : GuardedMethod) → same_method m m' ≡ true → m' ≡ m
same_method-≡ send_raw_transaction send_raw_transaction h = refl
same_method-≡ send_raw_transaction get_transaction_count h = cc
same_method-≡ send_raw_transaction send_raw_transaction_sync h = cc
same_method-≡ get_transaction_count send_raw_transaction h = cc
same_method-≡ get_transaction_count get_transaction_count h = refl
same_method-≡ get_transaction_count send_raw_transaction_sync h = cc
same_method-≡ send_raw_transaction_sync send_raw_transaction h = cc
same_method-≡ send_raw_transaction_sync get_transaction_count h = cc
same_method-≡ send_raw_transaction_sync send_raw_transaction_sync h = refl

same_method_self : (m : GuardedMethod) → same_method m m ≡ true
same_method_self send_raw_transaction = refl
same_method_self get_transaction_count = refl
same_method_self send_raw_transaction_sync = refl

-- The gate of a caller's next step is its own, unless it is idle.
next_gate-own :
    (config : LoadRpcBackpressureConfig) (name : String) (method : GuardedMethod) (t : Thread)
    → (t ≡ idle) ⊎ (next_gate config name method t ≡ some method)
next_gate-own config name method idle = inl refl
next_gate-own config name method loading = inr refl
next_gate-own config name method (loaded n) = inr refl
next_gate-own config name method (entered n) = inr refl
next_gate-own config name method (accounting n) = inr refl
next_gate-own config name method holding = inr refl
next_gate-own config name method (released prev) = inr refl
next_gate-own config name method (reporting next) = inr refl

seen_by-here :
    (m m' : GuardedMethod) (k : Caller)
    → (k.thread ≡ idle) ⊎ (Option.some m' ≡ some k.method)
    → same_method m m' ≡ true
    → seen_by m k ≡ k.thread
seen_by-here m m' k (inl at_rest) same = elim (Bool-cases (same_method m k.method)) [
  | inl here ↦ rw here refl
  | inr away ↦ rw away (sym at_rest)
]
seen_by-here m m' k (inr own) same = let e : m' ≡ k.method = cc in rw (← e) (rw same refl)

seen_by-away :
    (m m' : GuardedMethod) (k : Caller)
    → (k.thread ≡ idle) ⊎ (Option.some m' ≡ some k.method)
    → same_method m m' ≡ false
    → seen_by m k ≡ idle
seen_by-away m m' k (inl at_rest) other = elim (Bool-cases (same_method m k.method)) [
  | inl here ↦ rw here at_rest
  | inr away ↦ rw away refl
]
seen_by-away m m' k (inr own) other = let e : m' ≡ k.method = cc in rw (← e) (rw other refl)

module _ {W : Type 0} (config : LoadRpcBackpressureConfig) (m : GuardedMethod) where
  -- The gate of the method, and the callers as it sees them.
  abbrev Seen : World W × Caller → Gate × Thread
  Seen (w, k) = (gate_of w m, seen_by m k)

  step_at_gate-Seen :
      (w : World W) (k : Caller) (spurious : Bool) (o : Option GuardedMethod)
      → (k.thread ≡ idle) ⊎ (o ≡ some k.method)
      → Seen (step_at_gate config w k spurious o) ≡ (
          if is_at config m o
          then advance (limit_for config m) spurious (gate_of w m) (seen_by m k)
          else (gate_of w m, seen_by m k))
  unfolding step_at_gate
  step_at_gate-Seen w k spurious none own = refl
  step_at_gate-Seen w k spurious (some m') own = elim (Bool-cases (same_method m m')) [
    | inl same ↦
        let here = seen_by-here m m' k own same in
        let e = same_method-≡ m m' same in
        rw (gate_of-with_gate w m m' _) (rw (same, here) (rw e refl))
    | inr other ↦ rw (gate_of-with_gate w m m' _) (rw (other, seen_by-away m m' k own other) refl)
  ]

  abbrev pub SeenAll : World W × List Caller → Gate × List Thread
  SeenAll (w, callers) = (gate_of w m, map (seen_by m) callers)

  step-SeenAll :
      (i : ℕ) (name : String) (spurious : Bool) (w : World W) (callers : List Caller)
      → SeenAll (step config i name spurious w callers) ≡ (
          if is_step_at config m i name callers
          then advance_at (limit_for config m) i spurious (gate_of w m) (map (seen_by m) callers)
          else (gate_of w m, map (seen_by m) callers))
  unfolding step advance_at
  step-SeenAll i name spurious w [] = refl
  step-SeenAll zero name spurious w (k ∷ rest) =
      let o = gate_for config k name in
      let h = step_at_gate-Seen w k spurious o (next_gate-own config name k.method k.thread) in
      elim (Bool-cases (is_at config m o)) [
        | inl at_it ↦ rw at_it (ap (λ p. (p.0, p.1 ∷ map (seen_by m) rest)) (rw at_it at h))
        | inr away ↦ rw away (ap (λ p. (p.0, p.1 ∷ map (seen_by m) rest)) (rw away at h))
      ]
  step-SeenAll (suc i) name spurious w (k ∷ rest) =
      let h = step-SeenAll i name spurious w rest in
      elim (Bool-cases (is_step_at config m i name rest)) [
        | inl at_it ↦ rw at_it (ap (λ p. (p.0, seen_by m k ∷ p.1)) (rw at_it at h))
        | inr away ↦ rw away (ap (λ p. (p.0, seen_by m k ∷ p.1)) (rw away at h))
      ]

  -- Whatever the callers ask for and in whatever order they step: the gate of a method, with its
  -- metrics, and the callers as this gate sees them are where they would be had only the steps at
  -- this gate been taken, on the gate alone. So calls of one method never wait for, or are refused
  -- because of, calls of another.
  pub run_all-projects :
      (schedule : List (ℕ × String × Bool)) (w : World W) (callers : List Caller)
      → SeenAll (run_all config schedule w callers)
        ≡ run
            (limit_for config m)
            (steps_at config m schedule w callers)
            (gate_of w m)
            (map (seen_by m) callers)
  unfolding run_all run steps_at
  run_all-projects [] w callers = refl
  run_all-projects ((i, name, spurious) ∷ rest) w callers =
      let (w', callers') = step config i name spurious w callers in
      let later = run_all-projects rest w' callers' in
      let h = step-SeenAll i name spurious w callers in
      elim (Bool-cases (is_step_at config m i name callers)) [
        | inl at_it ↦ rw at_it (
            later
            ∙ ap (λ p. run (limit_for config m) (steps_at config m rest w' callers') p.0 p.1)
                (rw at_it at h))
        | inr away ↦ rw away (
            later
            ∙ ap (λ p. run (limit_for config m) (steps_at config m rest w' callers') p.0 p.1)
                (rw away at h))
      ]

-- Callers that have not called yet.
abbrev pub waiting : ℕ → List Caller
waiting n = replicate n (record { method = send_raw_transaction; thread = idle })

seen_waiting : (m : GuardedMethod) (n : ℕ) → map (seen_by m) (waiting n) ≡ replicate n idle
seen_waiting m zero = refl
seen_waiting m (suc n) = elim (Bool-cases (same_method m send_raw_transaction)) [
  | inl same ↦ rw same (ap (λ l. idle ∷ l) (seen_waiting m n))
  | inr other ↦ rw other (ap (λ l. idle ∷ l) (seen_waiting m n))
]

gate_of-new_world :
    {W : Type 0} (outside : W) (m : GuardedMethod) → gate_of (new_world outside) m ≡ new_gate
unfolding gate_of new_world
gate_of-new_world outside send_raw_transaction = refl
gate_of-new_world outside get_transaction_count = refl
gate_of-new_world outside send_raw_transaction_sync = refl

-- From a new state, for any number of callers, any requests of theirs, and any schedule of their
-- steps: for each method whose limit fits a `usize`, the counter of its gate is the number of calls
-- of that method that are let in, which never exceeds the limit configured for it.
pub run_all_capacity :
    {W : Type 0} (config : LoadRpcBackpressureConfig) (outside : W) (n : ℕ)
    (schedule : List (ℕ × String × Bool)) (m : GuardedMethod)
    → limit_for config m < u64_mod
    → let (w, callers) = run_all config schedule (new_world outside) (waiting n) in
      ((gate_of w m).inflight ≡ sum_of permits (map (seen_by m) callers))
      × (sum_of permits (map (seen_by m) callers) ≤ limit_for config m)
run_all_capacity config outside n schedule m small =
    let shadow = steps_at config m schedule (new_world outside) (waiting n) in
    let (counted, capped, _) = run_capacity (limit_for config m) small n shadow in
    let seen = run_all-projects config m schedule (new_world outside) (waiting n) in
    let seen' = (rw (gate_of-new_world outside m, seen_waiting m n) at seen) in
    (
      ap (λ p. p.0.inflight) seen' ∙ counted ∙ sym (ap (λ p. sum_of permits p.1) seen'),
      rw (ap (λ p. p.1) seen') capped,
    )
