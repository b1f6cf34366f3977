-- ===== src/App/Power.antt =====
-- Power actions and power events of `Application` (src/main.rs): what happens to Block mode around a
-- shutdown, a sleep and a wake.

use wardoff.Prelude.{
  Bool, true, false, Option, none, some, String, Result, ok, err, format, [], ◌∷◌, if◌then◌else◌,
}
use wardoff.Logger.Journal.{Env, EventSource, application, tray, log_event}
use wardoff.Logger.Journal
use wardoff.Blocker.Windows.{Windows}
use wardoff.Blocker.ShutdownBlocker.{PowerBroadcastEvent, suspend, resume}
use wardoff.Blocker.Coordinator.{
  BlockerMode, block, allow, BlockerCoordinator, same_mode, renew_sleep_requests_after_resume,
  forced_shutdown_cleanup,
}
use wardoff.Blocker.Power.{action_name, PowerAction, execute_power_action}
use wardoff.Blocker.Coordinator
use wardoff.Policy.{
  PendingWakeRestore, mark_system_suspended, pending_wake_restore_for_tray_power_action,
  pending_wake_restore_ready_for_resume,
}
use wardoff.App.{
  Application, Outcome, mode_label, power_action_label, with_mode, sync_tray, set_mode,
  clear_pending_block_restore_after_wake,
}

issued_message : PowerAction → String
unfolding power_action_label
issued_message action = format (
    "Wardoff issued the requested "
    ∷ power_action_label action
    ∷ " power action after switching to Allow mode."
    ∷ [])

not_issued_message : PowerAction → String → String
unfolding power_action_label
not_issued_message action message = format (
    "Wardoff could not issue the requested "
    ∷ power_action_label action
    ∷ " power action: "
    ∷ message
    ∷ [])

restore_report : PowerAction → BlockerMode → String → Result (Unit {0}) String → String
unfolding mode_label
restore_report action final message (ok _) = format (
    message
    ∷ " Wardoff restored Block mode after the failed "
    ∷ action_name action
    ∷ " request."
    ∷ [])
restore_report action final message (err error) = format (
    message
    ∷ " Wardoff could not restore Block mode after the failed "
    ∷ action_name action
    ∷ " request and remains in "
    ∷ mode_label final
    ∷ " mode: "
    ∷ error
    ∷ [])

remains_message : BlockerMode → String → String
unfolding mode_label
remains_message final message =
    format (message ∷ " Wardoff remains in " ∷ mode_label final ∷ " mode." ∷ [])

restored_message : PowerAction → Result (Unit {0}) String → String
unfolding power_action_label
restored_message action (ok _) = format (
    "Wardoff restored Block mode after the tray-initiated "
    ∷ power_action_label action
    ∷ " request woke the system."
    ∷ [])
restored_message action (err tray_error) = format (
    "Wardoff restored Block mode after the tray-initiated "
    ∷ power_action_label action
    ∷ " request woke the system, but could not refresh the tray UI immediately: "
    ∷ tray_error
    ∷ [])

not_restored_message : PowerAction → String → String
unfolding power_action_label
not_restored_message action error = format (
    "Wardoff could not restore Block mode after the tray-initiated "
    ∷ power_action_label action
    ∷ " request woke the system: "
    ∷ error
    ∷ [])

to_block_message : BlockerMode → String
unfolding mode_label
to_block_message previous =
    format ("Wardoff switched from " ∷ mode_label previous ∷ " mode to Block mode." ∷ [])

unfoldable pub mark_pending : Option PendingWakeRestore → Option PendingWakeRestore
mark_pending none = none
mark_pending (some pending) = some (mark_system_suspended pending)

module _ {W : Type 0} (sys : Windows W) where
  -- Where the action failed: the pending restore is dropped, and Block mode is entered again if it
  -- was left.
  unfoldable pub recover_mode :
      BlockerMode → PowerAction → String → Application W → Env W → Outcome W
  unfolding restore_report remains_message
  recover_mode block action message app env =
      let (r, app', env') = set_mode sys block tray app env in
      (err (restore_report action app'.blocker_coordinator.mode message r), app', env')
  recover_mode allow action message app env =
      (err (remains_message app.blocker_coordinator.mode message), app, env)

  unfoldable pub issue_action :
      BlockerMode → PowerAction → Application W → Result (Unit {0}) String → Env W → Outcome W
  unfolding issued_message not_issued_message
  issue_action previous action app (ok _) env =
      (ok tt, app, log_event "power_action_issued" tray (issued_message action) true env)
  issue_action previous action app (err message) env =
      recover_mode previous action message (clear_pending_block_restore_after_wake app)
        (log_event "power_action_issued" tray (not_issued_message action message) false env)

  unfoldable pub act_in_allow_mode : BlockerMode → PowerAction → Outcome W → Outcome W
  act_in_allow_mode previous action (ok _, app, env) =
      let (r, w) = execute_power_action sys action env.world in
      issue_action previous action app r (record env { world = w })
  act_in_allow_mode previous action (err e, app, env) =
      (err e, clear_pending_block_restore_after_wake app, env)

  unfoldable pub run_power_action : PowerAction → Application W → Env W → Outcome W
  run_power_action action app env =
      let previous = app.blocker_coordinator.mode in
      let pending = pending_wake_restore_for_tray_power_action previous action in
      act_in_allow_mode previous action
        (set_mode sys allow tray (record app { pending_block_restore_after_wake = pending }) env)

  log_switch : BlockerMode → Env W → Env W
  unfolding to_block_message
  log_switch block env = env
  log_switch allow env = log_event "state_changed" tray (to_block_message allow) true env

  unfoldable pub finish_restore :
      PowerAction
      → Application W
      → Result Bool String × BlockerCoordinator × Env W
      → Application W × Env W
  unfolding log_switch restored_message not_restored_message
  finish_restore action app (err error, c, env) = (
    with_mode c app,
    log_event "block_restored_after_wake" tray (not_restored_message action error) false env,
  )
  finish_restore action app (ok _, c, env) =
      let (r, env') =
        sync_tray c.mode (with_mode c app) (log_switch app.blocker_coordinator.mode env) in
      (
        with_mode c app,
        log_event "block_restored_after_wake" tray (restored_message action r) true env',
      )

  unfoldable pub restore_pending :
      Option PowerAction → Application W → Env W → Application W × Env W
  restore_pending none app env = (app, env)
  restore_pending (some action) app env =
      finish_restore action (clear_pending_block_restore_after_wake app)
        (Coordinator.set_mode sys block app.blocker_coordinator env)

  unfoldable pub restore_block_after_wake_if_needed : Application W → Env W → Application W × Env W
  unfolding restore_pending
  restore_block_after_wake_if_needed app env =
      restore_pending (pending_wake_restore_ready_for_resume app.pending_block_restore_after_wake)
        app env

  log_renewal : Result (Unit {0}) String → Env W → Env W
  log_renewal (ok _) env = env
  log_renewal (err error) env = log_event "sleep_resume_failed" Journal.sleep error false env

  unfoldable pub handle_power_broadcast :
      PowerBroadcastEvent → Application W → Env W → Application W × Env W
  unfolding log_renewal mark_pending
  handle_power_broadcast suspend app env =
      let pending = mark_pending app.pending_block_restore_after_wake in
      (record app { pending_block_restore_after_wake = pending }, env)
  handle_power_broadcast resume app env =
      let (r, c, env') = renew_sleep_requests_after_resume sys app.blocker_coordinator env in
      restore_block_after_wake_if_needed (with_mode c app) (log_renewal r env')

  unfoldable pub handle_forced_shutdown_cleanup : Application W → Env W → Application W × Env W
  handle_forced_shutdown_cleanup app env =
      let (c, env') = forced_shutdown_cleanup sys app.blocker_coordinator env in
      let cleaned = record app {
        blocker_coordinator = c;
        forced_shutdown_cleanup_completed = true;
        pending_block_restore_after_wake = none;
      } in
      if app.forced_shutdown_cleanup_completed then (app, env) else (
        cleaned,
        log_event "application_forced_shutdown" application
            "Wardoff shutting down due to user-forced shutdown" true env',
      )
