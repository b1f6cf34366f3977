-- ===== src/Tests/Launching.antt =====
-- The start of a process, src/main.rs, at work: a shell's console.
use wardoff.Prelude.{ℕ, true, false, String, Result, ok, err, inr, List, [], ◌∷◌, ◌≡◌, refl}
use wardoff.Cli.{RequestedAction}
use wardoff.Policy.{RuntimeOptions}
use wardoff.Instance.{Mutexes}
use wardoff.Launch.Console.{Consoles, inherited, console_launch_context}
use wardoff.Launch.{Process}
use wardoff.Launch.Runtime.{handle_runtime_request}
use wardoff.Launch.Guarded.{runtime_not_started}
use wardoff.Tests.Pipes.{codec, pipes, pipe}

abbrev mutexes : Mutexes (List ℕ)
mutexes = record {
  current_mutex_name = λ w. (ok "WardoffInstance", w);
  create_mutex = λ name w. (ok 4, w);
  already_exists = λ w. false;
  open_mutex = λ name w. (ok 5, w);
  close_handle = λ handle w. w;
  sleep = λ delay w. w;
}

abbrev shell : Consoles (List ℕ)
shell = record {
  has_console_window = λ w. true;
  console_process_count = λ w. 2;
  last_error = λ w. 0;
  hide_window = λ w. w;
  free_console = λ w. (ok tt, w);
  current_exe = λ w. (ok "wardoff.exe", w);
  args = λ w. [];
  shell_execute_runas = λ path arg w. (42, w);
  spawn_detached = λ path args w. (ok tt, w);
  decimal = λ n. "0";
}

abbrev process : Process (List ℕ)
process = record {
  mutexes = mutexes;
  consoles = shell;
  codec = codec;
  pipes = pipes;
  control_pipe = pipe;
  status_pipe = pipe;
  is_process_elevated = λ w. (ok true, w);
  run_primary = λ handle options w. (ok tt, 1 ∷ w);
  initialize_structured_logging = λ w. (ok tt, w);
  shutdown_structured_logging = λ w. w;
  set_autostart_enabled = λ enabled w. (ok tt, w);
  read_recent_lines = λ tail w. (ok [], w);
  status_to_json = λ status. ok "{}";
  print = λ text w. w;
}

abbrev failing : ℕ → RuntimeOptions → List ℕ → Result (Unit {0}) String × List ℕ
failing handle options w = (err "must not run", w)

in_shell : (w : List ℕ) → console_launch_context shell w ≡ ok inherited
unfolding console_launch_context
in_shell w = refl

runtime_not_started_example :
    handle_runtime_request
      (record process { run_primary = failing })
      RequestedAction.block
      false
      false
      []
    ≡ handle_runtime_request process RequestedAction.block false false []
runtime_not_started_example =
    runtime_not_started process failing RequestedAction.block false false []
      (inr (inr (refl, in_shell)))
