-- ===== src/Node/Launch.antt =====
-- `main` of src/main.rs, on the state `W` of the process. What it prints is left out.
use load_reth.Common.{ℕ, Option, none, some, Result, ok, err, String}

-- How the process ends: with an exit code, or by a panic.
pub data Exit : Type 0 where
  exited : (code : ℕ) → Exit
  panicked : Exit

-- What `main` calls. `try_init` sets the defaults of the engine with a persistence threshold.
-- `parse` ends the process by itself on a command line that it does not run. `with_runner` runs the
-- command `C` on the runtime `R`, and gives the closure the node builder `N` where the command asks
-- for a node; `launch` and `node_exit` are what the closure awaits.
pub record Process (W C R N H : Type 0) : Type 0 where
  pub install_handler : W → W
  pub var_os : String → W → Option String
  pub set_var : String → String → W → W
  pub try_init : ℕ → W → Result String (Unit {0}) × W
  pub parse : W → Result ℕ C × W
  pub try_default_runtime : W → Result String R × W
  pub launch : N → W → Result String H × W
  pub node_exit : H → W → Result String (Unit {0}) × W
  pub with_runner :
      C → R → (N → W → Result String (Unit {0}) × W) → W → Result String (Unit {0}) × W

abbrev pub rust_backtrace : String
rust_backtrace = "RUST_BACKTRACE"

module _ {W C R N H : Type 0} (p : Process W C R N H) where
  abbrev pub set_if_none : Option String → W → W
  set_if_none none w = p.set_var rust_backtrace "1" w
  set_if_none (some value) w = w

  -- `if std::env::var_os("RUST_BACKTRACE").is_none()`
  unfoldable pub enable_backtrace : W → W
  enable_backtrace w = set_if_none (p.var_os rust_backtrace w) w

  abbrev pub await_exit : Result String H × W → Result String (Unit {0}) × W
  await_exit (err e, w) = (err e, w)
  await_exit (ok handle, w) = p.node_exit handle w

  -- The closure that launches the node.
  unfoldable pub run_node : N → W → Result String (Unit {0}) × W
  run_node builder w = await_exit (p.launch builder w)

  -- `if let Err(err) = ... { std::process::exit(1) }`
  abbrev pub conclude : Result String (Unit {0}) × W → Exit × W
  conclude (err e, w) = (exited 1, w)
  conclude (ok done, w) = (exited 0, w)

  -- `.expect("Failed to create default runtime")`, and the command.
  abbrev pub run_command : C → Result String R × W → Exit × W
  run_command command (err e, w) = (panicked, w)
  run_command command (ok runtime, w) = conclude (p.with_runner command runtime run_node w)

  abbrev pub parsed : Result ℕ C × W → Exit × W
  parsed (err code, w) = (exited code, w)
  parsed (ok command, w) = run_command command (p.try_default_runtime w)

  -- `if let Err(err) = ...try_init() { panic!(...) }`
  abbrev pub initialized : Result String (Unit {0}) × W → Exit × W
  initialized (err e, w) = (panicked, w)
  initialized (ok done, w) = parsed (p.parse w)

  unfoldable pub main : W → Exit × W
  main w = initialized (p.try_init 0 (enable_backtrace (p.install_handler w)))
