-- ===== src/Tray/Thread/Creation.antt =====
-- How the tray thread of src/tray/mod.rs creates the icon, and tries again.
use wardoff.Prelude.{
  ℕ, ◌+◌, leb, true, false, Option, none, some, String, Result, ok, err, format, [], ◌∷◌,
  if◌then◌else◌,
}
use wardoff.Logger.Journal.{Env, tray, log_event}
use wardoff.Tray.{
  Gui, TrayController, MenuId, drain_actions, create_tray_controller, set_autostart_enabled,
}
use wardoff.Tray
use wardoff.Tray.Thread.{TrayThreadState, retry_interval, warning_interval, has_elapsed}

unfoldable pub log_tray_creation_failure :
    {W : Type 0} → String → TrayThreadState → Env W → TrayThreadState × Env W
log_tray_creation_failure error state env =
    if state.creation_failure_reported then (state, env) else (
      record state { creation_failure_reported = true },
      log_event "tray_creation_failed" tray
          (format (
            "Wardoff could not create or refresh its tray icon: " ∷ error
            ∷ ". It will keep retrying every 2 seconds until Explorer accepts the tray icon." ∷ []))
          false env,
    )

module _ {W : Type 0} (gui : Gui W) where
  -- The icon is there: the wait is over, and a long one is recorded.
  unfoldable pub shown : TrayController → TrayThreadState → Env W → TrayThreadState × Env W
  shown controller state env =
      let state' = record state {
        waiting_since = none;
        last_warning_at = none;
        controller = some controller;
      } in
      if has_elapsed state.waiting_since retry_interval (gui.now env.world)
      then (
        state',
        log_event "tray_initialized" tray
            "Wardoff created its tray icon after retrying until Explorer became ready." true env,
      )
      else (state', env)

  unfoldable pub after_mode :
      Result (Unit {0}) String × TrayController × Env W → TrayThreadState → TrayThreadState × Env W
  unfolding shown log_tray_creation_failure
  after_mode (ok _, controller, env) state = shown controller state env
  after_mode (err error, controller, env) state = log_tray_creation_failure error state env

  unfoldable pub after_creation :
      Result TrayController String × Env W → TrayThreadState → TrayThreadState × Env W
  unfolding after_mode log_tray_creation_failure
  after_creation (ok controller, env) state =
      after_mode
        (Tray.set_mode gui state.mode (set_autostart_enabled state.autostart_enabled controller)
          env)
        state
  after_creation (err error, env) state = log_tray_creation_failure error state env

  unfoldable pub try_create_tray_controller : TrayThreadState → Env W → TrayThreadState × Env W
  unfolding after_creation
  try_create_tray_controller state env =
      after_creation (create_tray_controller gui state.visibility env)
        (record state { next_retry_at = gui.now env.world + retry_interval })

  unfoldable pub start_waiting : ℕ → TrayThreadState → Option ℕ → TrayThreadState
  start_waiting now state none = record state {
    waiting_since = some now;
    last_warning_at = some now;
  }
  start_waiting now state (some _) = state

  unfoldable pub warn_if_late : TrayThreadState → Env W → TrayThreadState × Env W
  warn_if_late state env =
      if has_elapsed state.last_warning_at warning_interval (gui.now env.world)
      then (
        record state { last_warning_at = some (gui.now env.world) },
        log_event "tray_retrying" tray
            "Wardoff is still waiting for Explorer to accept the tray icon and will keep retrying every 2 seconds."
            false env,
      )
      else (state, env)

  unfoldable pub retry_if_due : TrayThreadState → Env W → TrayThreadState × Env W
  unfolding try_create_tray_controller
  retry_if_due state env =
      if leb state.next_retry_at (gui.now env.world)
      then try_create_tray_controller state env
      else (state, env)

  unfoldable pub attempt_tray_creation : TrayThreadState → Env W → TrayThreadState × Env W
  unfolding start_waiting retry_if_due warn_if_late
  attempt_tray_creation state env =
      let (state', env') =
        retry_if_due (start_waiting (gui.now env.world) state state.waiting_since) env in
      warn_if_late state' env'

  unfoldable pub create_if_missing :
      Option TrayController → TrayThreadState → Env W → TrayThreadState × Env W
  create_if_missing none state env = attempt_tray_creation state env
  create_if_missing (some _) state env = (state, env)
