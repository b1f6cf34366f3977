-- ===== src/App/Requests.antt =====
-- The requests that `Application` (src/main.rs) serves: the named pipe's and the tray menu's.
use wardoff.Prelude.{
  ℕ, Bool, true, false, Option, none, some, String, Result, ok, err, format, List, [], ◌∷◌,
  if◌then◌else◌,
}
use wardoff.Logger.Journal.{Env, tray, ipc, log_event}
use wardoff.Blocker.Windows.{Windows}
use wardoff.Blocker.Coordinator.{BlockerMode, layer_status}
use wardoff.Blocker.Power.{PowerAction}
use wardoff.Cli.{StatusOutput, active_status}
use wardoff.Ipc.{IpcResponse}
use wardoff.Policy.{IpcRequest, blocker_mode}
use wardoff.App.{
  Autostart, Application, Outcome, mode_label, set_mode, clear_pending_block_restore_after_wake,
}
use wardoff.App.Power.{run_power_action}
use wardoff.App.AutostartTask.{with_on_off, set_autostart_enabled}

pub data TrayAction : Type 0 where
  block allow : TrayAction
  set_autostart : Bool → TrayAction
  shutdown reboot sleep hibernate quit : TrayAction

module _ {W : Type 0} (sys : Windows W) (autostart : Autostart W) where
  unfoldable pub answer_mode : BlockerMode → Outcome W → IpcResponse × Application W × Env W
  unfolding mode_label
  answer_mode mode (ok _, app, env) = (
    IpcResponse.ok,
    app,
    log_event "mode_request_processed" ipc
        (format ("Wardoff applied a named-pipe request for " ∷ mode_label mode ∷ " mode." ∷ []))
        true env,
  )
  answer_mode mode (err message, app, env) = (
    IpcResponse.error message,
    app,
    log_event "mode_request_processed" ipc
        (format (
          "Wardoff could not apply a named-pipe request for "
          ∷ mode_label mode
          ∷ " mode: "
          ∷ message
          ∷ []))
        false env,
  )

  unfoldable pub answer_autostart :
      Bool → Application W → Result (Unit {0}) String × Env W → IpcResponse × Application W × Env W
  unfolding with_on_off
  answer_autostart enabled app (ok _, env) = (
    IpcResponse.ok,
    app,
    log_event "autostart_request_processed" ipc
        (with_on_off "Wardoff applied a named-pipe request to turn Start with Windows " enabled ".")
        true env,
  )
  answer_autostart enabled app (err message, env) = (
    IpcResponse.error message,
    app,
    log_event "autostart_request_processed" ipc
        (format (
          with_on_off "Wardoff could not apply a named-pipe request to turn Start with Windows "
            enabled ": "
          ∷ message
          ∷ []))
        false env,
  )

  unfoldable pub status_output : ℕ → Application W → Env W → StatusOutput
  status_output uptime_seconds app env =
      active_status app.blocker_coordinator.mode (layer_status app.blocker_coordinator)
        uptime_seconds env.blocked_event_count

  unfoldable pub handle_ipc_request :
      ℕ → IpcRequest → Application W → Env W → IpcResponse × Application W × Env W
  unfolding answer_mode answer_autostart blocker_mode
  handle_ipc_request uptime (IpcRequest.set_mode mode) app env =
      answer_mode (blocker_mode mode)
        (set_mode sys (blocker_mode mode) ipc (clear_pending_block_restore_after_wake app) env)
  handle_ipc_request uptime (IpcRequest.set_autostart enabled) app env =
      answer_autostart enabled app (set_autostart_enabled autostart enabled ipc app env)
  handle_ipc_request uptime IpcRequest.status app env =
      (IpcResponse.status (status_output uptime app env), app, env)
  handle_ipc_request uptime IpcRequest.shutdown_server app env = (
    IpcResponse.error "Wardoff cannot route the internal shutdown request through the UI thread.",
    app,
    env,
  )

  -- The `Ok(false)` of an action, with a record of it where the source writes one.
  unfoldable pub processed : Option String → Outcome W → Result Bool String × Application W × Env W
  processed none (ok _, app, env) = (ok false, app, env)
  processed (some message) (ok _, app, env) =
      (ok false, app, log_event "tray_action" tray message true env)
  processed message (err e, app, env) = (err e, app, env)

  unfoldable pub handle_tray_action :
      TrayAction → Application W → Env W → Result Bool String × Application W × Env W
  unfolding processed with_on_off
  handle_tray_action TrayAction.block app env =
      processed (some "Wardoff processed a Block request from the tray menu.")
        (set_mode sys BlockerMode.block tray (clear_pending_block_restore_after_wake app) env)
  handle_tray_action TrayAction.allow app env =
      processed (some "Wardoff processed an Allow request from the tray menu.")
        (set_mode sys BlockerMode.allow tray (clear_pending_block_restore_after_wake app) env)
  handle_tray_action (TrayAction.set_autostart enabled) app env =
      let (r, env') = set_autostart_enabled autostart enabled tray app env in
      processed
        (some (
          with_on_off "Wardoff processed a Start with Windows request to turn autostart " enabled
            "."))
        (r, app, env')
  handle_tray_action TrayAction.shutdown app env =
      processed none (run_power_action sys PowerAction.shutdown app env)
  handle_tray_action TrayAction.reboot app env =
      processed none (run_power_action sys PowerAction.reboot app env)
  handle_tray_action TrayAction.sleep app env =
      processed none (run_power_action sys PowerAction.sleep app env)
  handle_tray_action TrayAction.hibernate app env =
      processed none (run_power_action sys PowerAction.hibernate app env)
  handle_tray_action TrayAction.quit app env = (
    ok true,
    app,
    log_event "quit_requested" tray "Wardoff received a Quit request from the tray menu." true env,
  )

  -- The `Debug` text of an action.
  action_name : TrayAction → String
  action_name TrayAction.block = "Block"
  action_name TrayAction.allow = "Allow"
  action_name (TrayAction.set_autostart true) = "SetAutostart(true)"
  action_name (TrayAction.set_autostart false) = "SetAutostart(false)"
  action_name TrayAction.shutdown = "Shutdown"
  action_name TrayAction.reboot = "Reboot"
  action_name TrayAction.sleep = "Sleep"
  action_name TrayAction.hibernate = "Hibernate"
  action_name TrayAction.quit = "Quit"

  log_failed_action : TrayAction → Result Bool String → Env W → Env W
  unfolding action_name
  log_failed_action action (ok _) env = env
  log_failed_action action (err message) env =
      log_event "tray_action" tray
        (format
          ("Wardoff could not process the " ∷ action_name action ∷ " tray action: " ∷ message ∷ []))
        false env

  is_quit : Result Bool String → Bool
  is_quit (ok quits) = quits
  is_quit (err _) = false

  -- The drained actions in turn; those after a Quit are dropped.
  unfoldable pub process_tray_actions :
      List TrayAction → Application W → Env W → Bool × Application W × Env W
  unfolding log_failed_action is_quit
  process_tray_actions [] app env = (false, app, env)
  process_tray_actions (action ∷ actions) app env =
      let (r, app', env') = handle_tray_action action app env in
      let logged = log_failed_action action r env' in
      let rest = process_tray_actions actions app' logged in
      if is_quit r then (true, app', logged) else rest
