-- ===== src/Tests.antt =====
-- A small Windows on which the examples run: its state is whether the reboot task is enabled. Every
-- call succeeds, but that Layer 1 can be taken down only on a `willing` one.
mod Blockers
mod Coordination
mod Running
mod Requests
mod Logs
mod TrayThread
mod Pipes
mod LogonTask
mod Launching
mod LogWriting
mod Traces
use wardoff.Prelude.{
  ℕ, Bool, true, false, Option, none, some, String, Result, ok, err, [], if◌then◌else◌,
}
use wardoff.Logger.Journal.{Env}
use wardoff.Blocker.PowerRequests.{PowerApi}
use wardoff.Blocker.Windows.{Windows, WinError, other_code, error_success}
use wardoff.App.{Autostart}
use wardoff.App.Lifecycle.{Services}

abbrev pub refused : WinError
refused = record { code = other_code 5; text = "refused" }

abbrev pub power : PowerApi Bool
power = record {
  create = λ w. (ok 7, w);
  set = λ handle kind w. (ok tt, w);
  clear = λ handle kind w. (ok tt, w);
  close = λ handle w. (ok tt, w);
}

abbrev pub machine : Bool → Windows Bool
machine willing = record {
  power = power;
  spawn_thread = λ name w. (ok tt, w);
  open_process_token = λ w. (ok 1, w);
  lookup_privilege_value = λ w. (ok 2, w);
  adjust_token_privileges = λ token luid w. (ok tt, w);
  last_error = λ w. record { code = other_code 0; text = "success" };
  close_handle = λ handle w. w;
  is_process_elevated = λ w. (ok true, w);
  abort_system_shutdown = λ w. (ok tt, w);
  shutdown_block_reason_create = λ w. (ok tt, w);
  shutdown_block_reason_destroy = λ w. (if willing then ok tt else err refused, w);
  exit_windows = λ reboots w. (ok tt, w);
  set_suspend_state = λ hibernates w. (true, w);
  co_initialize = λ w. (ok tt, w);
  co_uninitialize = λ w. w;
  open_folder = λ w. (ok tt, w);
  get_task = λ w. (ok tt, w);
  task_enabled = λ w. (ok w, w);
  set_task_enabled = λ on w. (ok tt, on);
  session_name = λ w. "WardoffTrace";
  start_trace = λ name w. (error_success, w);
  enable_trace = λ w. (error_success, w);
  open_trace = λ name w. (some 3, w);
  process_trace = λ trace w. (error_success, w);
  close_trace = λ trace w. (error_success, w);
  stop_trace = λ name w. (error_success, w);
  status_text = λ status. "status";
  status_code = λ status. "0";
}

abbrev pub here : Env Bool
here = record { world = true; journal = []; blocked_event_count = 0 }

abbrev pub scheduled : Autostart Bool
scheduled = record { is_enabled = λ w. (ok true, w); set_enabled = λ on w. (ok tt, w) }

abbrev pub services : Services Bool
services = record {
  initialize_structured_logging = λ w. (ok tt, w);
  spawn_tray_service = λ shown mode w. (err "no tray", w);
  start_ipc_server = λ w. (ok tt, w);
  begin_shutdown = λ w. w;
  shutdown_ipc_server = λ w. (ok tt, w);
  shutdown_structured_logging = λ w. w;
}
