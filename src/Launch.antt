-- ===== src/Launch.antt =====
-- What a process of the command line does before and around the runtime, src/main.rs: the claim of
-- the instance, the requests it forwards, the relaunches, and the exit code. `println!` and the
-- dialog are calls; a panic of an `unreachable!` is an error here.
pub mod Console
pub mod Runtime
pub mod Guarded
use wardoff.Prelude.{
  ℕ, ◌+◌, Bool, true, false, ◌&&◌, Option, none, some, String, Result, ok, err, map_err, and_then,
  on_error, is_ok, format, List, [], ◌∷◌, if◌then◌else◌,
}
use wardoff.Logger.Journal.{Env, application, log_event, on_world}
use wardoff.Cli.{RequestedAction, StatusOutput, inactive_status, is_read_only}
use wardoff.Policy.{IpcRequest, RuntimeOptions, runtime_options_for, ipc_request_for}
use wardoff.Instance.{
  Mutexes, InstanceClaim, primary, secondary, claim_primary_instance,
  claim_primary_instance_with_retry,
}
use wardoff.Ipc.{IpcResponse}
use wardoff.Ipc.Connect.{Pipes, ClientError, unavailable, transport}
use wardoff.Ipc.Client.{
  Codec, Pipe, send_request, send_status_request_with_connect_deadline, read_status,
}
use wardoff.Launch.Console.{
  Consoles, ConsoleLaunchContext, no_console, owned, inherited, ElevationLaunchResult, launched,
  cancelled, console_launch_context, hide_and_free_console, relaunch_self_detached,
  relaunch_self_elevated, should_show_graphical_startup_error,
}

-- STATUS_PIPE_DISCOVERY_TIMEOUT and the bounds of the elevated relaunch, in milliseconds.
abbrev pub status_pipe_discovery_timeout : ℕ
status_pipe_discovery_timeout = 2000

abbrev pub elevated_relaunch_mutex_retry_attempts : ℕ
elevated_relaunch_mutex_retry_attempts = 20

abbrev pub elevated_relaunch_mutex_retry_delay : ℕ
elevated_relaunch_mutex_retry_delay = 100

-- What the process calls of the other files. `run_primary` is `bootstrap` and then `run`.
pub record Process (W : Type 0) : Type 0 where
  pub mutexes : Mutexes W
  pub consoles : Consoles W
  pub codec : Codec
  pub pipes : Pipes W
  pub control_pipe : Pipe W
  pub status_pipe : Pipe W
  pub is_process_elevated : W → Result Bool String × W
  pub run_primary : ℕ → RuntimeOptions → W → Result (Unit {0}) String × W
  pub initialize_structured_logging : W → Result (Unit {0}) String × W
  pub shutdown_structured_logging : W → W
  pub set_autostart_enabled : Bool → W → Result (Unit {0}) String × W
  pub read_recent_lines : ℕ → W → Result (List String) String × W
  pub status_to_json : StatusOutput → Result String String
  pub print : String → W → W

-- An exit code, or the error that `main` reports.
abbrev pub Outcome : Type 0 → Type 0
Outcome W = Result ℕ String × W

unfoldable pub active_primary_pipe_unavailable_message : String
active_primary_pipe_unavailable_message =
    "Wardoff found an active primary instance, but its control pipe is unavailable. The primary instance may still be starting up or shutting down."

module _ {W : Type 0} (process : Process W) where
  unfoldable pub print_status : StatusOutput → ℕ → W → Outcome W
  print_status status exit_code w =
      and_then (process.status_to_json status, w) λ text w'. (ok exit_code, process.print text w')

  -- `forward_request_to_primary`, by the answer.
  unfoldable pub fall_back : (ℕ → W → Outcome W) → Result InstanceClaim String × W → Outcome W
  unfolding active_primary_pipe_unavailable_message
  fall_back local_fallback (ok (primary handle), w) = local_fallback handle w
  fall_back local_fallback (ok secondary, w) = (err active_primary_pipe_unavailable_message, w)
  fall_back local_fallback (err error, w) = (err error, w)

  unfoldable pub settle_forward :
      (ℕ → W → Outcome W) → Result IpcResponse ClientError × W → Outcome W
  unfolding fall_back
  settle_forward local_fallback (ok IpcResponse.ok, w) = (ok 0, w)
  settle_forward local_fallback (ok (IpcResponse.error message), w) = (err message, w)
  settle_forward local_fallback (ok (IpcResponse.status status), w) =
      (err "Wardoff received a status payload for a control command.", w)
  settle_forward local_fallback (err unavailable, w) =
      fall_back local_fallback (claim_primary_instance process.mutexes w)
  settle_forward local_fallback (err (transport message), w) = (err message, w)

  unfoldable pub forward_request_to_primary : IpcRequest → (ℕ → W → Outcome W) → W → Outcome W
  unfolding settle_forward
  forward_request_to_primary request local_fallback w =
      settle_forward local_fallback
        (send_request process.codec process.pipes process.control_pipe request w)

  unfoldable pub settle_control_status : Result IpcResponse ClientError × W → Outcome W
  unfolding print_status active_primary_pipe_unavailable_message
  settle_control_status (ok (IpcResponse.status status), w) = print_status status 0 w
  settle_control_status (ok (IpcResponse.error message), w) = (err message, w)
  settle_control_status (ok IpcResponse.ok, w) =
      (err "Wardoff received an unexpected empty response for --status.", w)
  settle_control_status (err unavailable, w) = (err active_primary_pipe_unavailable_message, w)
  settle_control_status (err (transport message), w) = (err message, w)

  unfoldable pub handle_secondary_status_request_via_control_pipe : ℕ → W → Outcome W
  unfolding settle_control_status
  handle_secondary_status_request_via_control_pipe connect_deadline w = settle_control_status (
      send_status_request_with_connect_deadline process.codec process.pipes process.control_pipe
        (some connect_deadline) w)

  unfoldable pub settle_status : ℕ → Result StatusOutput ClientError × W → Outcome W
  unfolding print_status handle_secondary_status_request_via_control_pipe
  settle_status connect_deadline (ok status, w) = print_status status 0 w
  settle_status connect_deadline (err unavailable, w) =
      handle_secondary_status_request_via_control_pipe connect_deadline w
  settle_status connect_deadline (err (transport message), w) = (err message, w)

  unfoldable pub handle_secondary_status_request : W → Outcome W
  unfolding settle_status
  handle_secondary_status_request w =
      let connect_deadline = process.pipes.now w + status_pipe_discovery_timeout in
      settle_status connect_deadline
        (read_status process.codec process.pipes process.status_pipe (some connect_deadline) w)

  unfoldable pub settle_status_claim : Result InstanceClaim String × W → Outcome W
  unfolding print_status handle_secondary_status_request
  settle_status_claim (ok (primary handle), w) =
      print_status inactive_status 1 (process.mutexes.close_handle handle w)
  settle_status_claim (ok secondary, w) = handle_secondary_status_request w
  settle_status_claim (err error, w) = (err error, w)

  unfoldable pub handle_status_request : W → Outcome W
  unfolding settle_status_claim
  handle_status_request w = settle_status_claim (claim_primary_instance process.mutexes w)

  print_lines : List String → W → W
  print_lines [] w = w
  print_lines (line ∷ lines) w = print_lines lines (process.print line w)

  unfoldable pub handle_log_request : ℕ → W → Outcome W
  unfolding print_lines
  handle_log_request tail w =
      and_then (process.read_recent_lines tail w) λ lines w'. (ok 0, print_lines lines w')

  unfoldable pub stop_logging_if : Bool → W → W
  stop_logging_if true w = process.shutdown_structured_logging w
  stop_logging_if false w = w

  unfoldable pub handle_local_autostart_request : Bool → ℕ → W → Outcome W
  unfolding stop_logging_if
  handle_local_autostart_request enabled handle w =
      let (started, w₁) =
        process.initialize_structured_logging (process.mutexes.close_handle handle w) in
      let (r, w₂) = process.set_autostart_enabled enabled w₁ in
      and_then (r, stop_logging_if (is_ok started) w₂) λ _ w₃. (ok 0, w₃)

  unfoldable pub settle_autostart_claim : Bool → Result InstanceClaim String × W → Outcome W
  unfolding handle_local_autostart_request forward_request_to_primary
  settle_autostart_claim enabled (ok (primary handle), w) =
      handle_local_autostart_request enabled handle w
  settle_autostart_claim enabled (ok secondary, w) =
      forward_request_to_primary (IpcRequest.set_autostart enabled)
        (handle_local_autostart_request enabled) w
  settle_autostart_claim enabled (err error, w) = (err error, w)

  unfoldable pub handle_autostart_request : Bool → W → Outcome W
  unfolding settle_autostart_claim
  handle_autostart_request enabled w =
      settle_autostart_claim enabled (claim_primary_instance process.mutexes w)
