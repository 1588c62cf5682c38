-- ===== src/Node/Tests.antt =====
-- A process whose state is its RUST_BACKTRACE and the default persistence threshold.
use load_reth.Common.{ℕ, zero, suc, ◌≡◌, refl, Option, none, some, Result, ok, err, String}
use load_reth.Node.Launch.{Process, exited, main, enable_backtrace, run_node}
use load_reth.Node.Threshold.{ProcessLaws, main_ready}

abbrev State : Type 0
State = Option String × ℕ

abbrev process : Process State ℕ ℕ ℕ ℕ
process = record {
  install_handler = λ w. w;
  var_os = λ name w. w.0;
  set_var = λ name value w. (some value, w.1);
  try_init = λ n w. (ok tt, (w.0, n));
  parse = λ w. (ok 1, w);
  try_default_runtime = λ w. (ok 2, w);
  launch = λ builder w. (ok 3, w);
  node_exit = λ handle w. (ok tt, w);
  with_runner = λ command runtime node w. node 4 w;
}

laws : ProcessLaws process (λ w. w.1)
laws = record {
  var_set = λ name value w. refl;
  var_kept = λ name n w. refl;
  var_parsed = λ name w. refl;
  var_run = λ name w. refl;
  threshold_set = λ n w done. refl;
  threshold_parsed = λ w. refl;
  threshold_run = λ w. refl;
}

-- A runner that fails unless the threshold is zero.
abbrev strict_on :
    ℕ → (State → Result String (Unit {0}) × State) → State → Result String (Unit {0}) × State
strict_on zero node w = node w
strict_on (suc n) node w = (err "the threshold is not zero", w)

abbrev strict :
    ℕ
    → ℕ
    → (ℕ → State → Result String (Unit {0}) × State)
    → State
    → Result String (Unit {0}) × State
strict command runtime node w = strict_on w.1 (node 4) w

same :
    (command runtime : ℕ) (w : State)
    → (w.1 ≡ 0) × ((value : String) × (w.0 ≡ some value))
    → run_node process 4 w ≡ strict_on w.1 (run_node process 4) w
same command runtime (v, n) (zero_threshold, _) = rw zero_threshold refl

ends : main process (none, 2) ≡ (exited 0, (some "1", 0))
unfolding main enable_backtrace run_node
ends = refl

main_ready_example :
    main process (none, 2) ≡ main (record process { with_runner = strict }) (none, 2)
main_ready_example = main_ready process (λ w. w.1) laws strict same (none, 2)
