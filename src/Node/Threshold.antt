-- ===== src/Node/Threshold.antt =====
-- In which states the command runs.
use load_reth.Common.{ℕ, ◌≡◌, refl, ◌∙◌, some, Result, ok, err, String, ap, inl, inr, Option-cases}
use load_reth.Node.Launch.{
  Process, rust_backtrace, enable_backtrace, run_node, conclude, run_command, parsed, initialized,
  main,
}

-- What the standard library and reth document: a variable that is set is there, and stays while the
-- defaults are set, the command line is read and the runtime is made; the defaults of the engine,
-- of which `threshold` reads the persistence threshold, are those that were set, if that succeeds,
-- and stay.
pub record ProcessLaws {W C R N H : Type 0} (p : Process W C R N H) (threshold : W → ℕ)
    : Type 0 where
  pub var_set : (name value : String) (w : W) → p.var_os name (p.set_var name value w) ≡ some value
  pub var_kept :
      (name : String) (n : ℕ) (w : W) → p.var_os name (p.try_init n w).1 ≡ p.var_os name w
  pub var_parsed : (name : String) (w : W) → p.var_os name (p.parse w).1 ≡ p.var_os name w
  pub var_run :
      (name : String) (w : W) → p.var_os name (p.try_default_runtime w).1 ≡ p.var_os name w
  pub threshold_set :
      (n : ℕ) (w : W) → (p.try_init n w).0 ≡ ok tt → threshold (p.try_init n w).1 ≡ n
  pub threshold_parsed : (w : W) → threshold (p.parse w).1 ≡ threshold w
  pub threshold_run : (w : W) → threshold (p.try_default_runtime w).1 ≡ threshold w

module _ {W C R N H : Type 0} (p : Process W C R N H) (threshold : W → ℕ)
    (laws : ProcessLaws p threshold) where
  -- The engine persists at once by default, and backtraces are on or were set by the operator.
  abbrev pub IsReady : W → Type 0
  IsReady w = (threshold w ≡ 0) × ((value : String) × (p.var_os rust_backtrace w ≡ some value))

  enable_backtrace-set :
      (w : W) → (value : String) × (p.var_os rust_backtrace (enable_backtrace p w) ≡ some value)
  unfolding enable_backtrace
  enable_backtrace-set w = elim (Option-cases (p.var_os rust_backtrace w)) [
    | inl unset ↦ ("1", rw unset (laws.var_set rust_backtrace "1" w))
    | inr (value, there) ↦ (value, rw there there)
  ]

  module _
      (other : C → R → (N → W → Result String (Unit {0}) × W) → W → Result String (Unit {0}) × W)
      (agree : (command : C) (runtime : R) (w : W)
        → IsReady w
        → p.with_runner command runtime (run_node p) w ≡ other command runtime (run_node p) w) where
    abbrev changed : Process W C R N H
    changed = record p { with_runner = other }

    run_command_same :
        (command : C) (w : W) (r : Result String R)
        → IsReady w
        → run_command p command (r, w) ≡ run_command changed command (r, w)
    unfolding run_node
    run_command_same command w (err e) ready = refl
    run_command_same command w (ok runtime) ready = ap (conclude p) (agree command runtime w ready)

    parsed_same : (w : W) (r : Result ℕ C) → IsReady w → parsed p (r, w) ≡ parsed changed (r, w)
    parsed_same w (err code) ready = refl
    parsed_same w (ok command) (zero_threshold, (value, there)) =
        run_command_same command (p.try_default_runtime w).1 (p.try_default_runtime w).0
          (laws.threshold_run w ∙ zero_threshold, (value, laws.var_run rust_backtrace w ∙ there))

    initialized_same :
        (start : W) (r : Result String (Unit {0}))
        → (p.try_init 0 start).0 ≡ r
        → ((value : String) × (p.var_os rust_backtrace start ≡ some value))
        → initialized p (r, (p.try_init 0 start).1)
          ≡ initialized changed (r, (p.try_init 0 start).1)
    initialized_same start (err e) done set = refl
    initialized_same start (ok x) done (value, there) =
        parsed_same (p.parse (p.try_init 0 start).1).1 (p.parse (p.try_init 0 start).1).0 (
          laws.threshold_parsed _ ∙ laws.threshold_set 0 start done,
          (value, laws.var_parsed rust_backtrace _ ∙ laws.var_kept rust_backtrace 0 start ∙ there),
        )

    -- The command, and so the node, runs only in a state where the default persistence threshold of
    -- the engine is zero and RUST_BACKTRACE is set: a process whose commands run in another way in
    -- any other state, `other`, does the same from every state.
    pub main_ready : (w : W) → main p w ≡ main changed w
    unfolding main enable_backtrace
    main_ready w =
        initialized_same (enable_backtrace p (p.install_handler w)) _ refl
          (enable_backtrace-set (p.install_handler w))
