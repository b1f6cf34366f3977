-- ===== src/App/AutostartTask.antt =====
-- `set_autostart_enabled` and its tray updates, of `Application` in src/main.rs.
use wardoff.Prelude.{
  Bool, true, false, Option, none, some, String, Result, ok, err, to_option, format, [], ◌∷◌,
}
use wardoff.Logger.Journal.{Env, EventSource, application, log_event}
use wardoff.Policy.{resolved_autostart_state_for_tray}
use wardoff.App.{TrayServiceHandle, Autostart, Application, on_off_label}

unfoldable pub with_on_off : String → Bool → String → String
unfolding on_off_label
with_on_off before enabled after = format (before ∷ on_off_label enabled ∷ after ∷ [])

module _ {W : Type 0} where
  tray_set_autostart : Option (TrayServiceHandle W) → Bool → W → Result (Unit {0}) String × W
  tray_set_autostart none enabled w = (ok tt, w)
  tray_set_autostart (some service) enabled w = service.set_autostart_enabled enabled w

  log_autostart_tray_sync_failure : EventSource → String → Env W → Env W
  log_autostart_tray_sync_failure source message env =
      log_event "autostart_tray_sync" source message false env

  log_if_failed : EventSource → String → Result (Unit {0}) String → Env W → Env W
  unfolding log_autostart_tray_sync_failure
  log_if_failed source context (ok _) env = env
  log_if_failed source context (err tray_error) env =
      log_autostart_tray_sync_failure source (format (context ∷ ": " ∷ tray_error ∷ [])) env

  unfoldable pub sync_tray_autostart_with_logging :
      Bool → EventSource → String → Application W → Env W → Env W
  unfolding tray_set_autostart log_if_failed
  sync_tray_autostart_with_logging enabled source context app env =
      let (r, w) = tray_set_autostart app.tray_service enabled env.world in
      log_if_failed source context r (record env { world = w })

  show_resolved : Bool → EventSource → Result Bool String → Application W → Env W → Env W
  unfolding sync_tray_autostart_with_logging with_on_off log_autostart_tray_sync_failure
  show_resolved enabled source (ok restored) app env =
      sync_tray_autostart_with_logging restored source
        (with_on_off "Wardoff could not restore the tray checkbox to Start with Windows " restored
          " after a failed scheduled-task update")
        app env
  show_resolved enabled source (err read_error) app env =
      log_autostart_tray_sync_failure source
        (format (
          with_on_off
            "Wardoff could not restore the tray checkbox after failing to turn Start with Windows "
            enabled
            " because the scheduled task state could not be read before or after the change attempt: "
          ∷ read_error
          ∷ []))
        env

module _ {W : Type 0} (autostart : Autostart W) where
  settle_autostart :
      Option Bool
      → Bool
      → EventSource
      → Application W
      → Result (Unit {0}) String
      → Env W
      → Result (Unit {0}) String × Env W
  unfolding with_on_off show_resolved sync_tray_autostart_with_logging
  settle_autostart previous enabled source app (ok _) env =
      let env' =
        sync_tray_autostart_with_logging enabled source
          (with_on_off "Wardoff turned Start with Windows " enabled
            " but could not update the tray checkbox")
          app env in
      (
        ok tt,
        log_event "autostart_changed" source
            (with_on_off "Wardoff turned Start with Windows " enabled ".") true env',
      )
  settle_autostart previous enabled source app (err error) env =
      let (reread, w) = autostart.is_enabled env.world in
      let env' =
        show_resolved enabled source (resolved_autostart_state_for_tray previous reread) app
          (record env { world = w }) in
      let message =
        format
          (with_on_off "Wardoff could not turn Start with Windows " enabled ": " ∷ error ∷ []) in
      (err message, log_event "autostart_changed" source message false env')

  unfoldable pub set_autostart_enabled :
      Bool → EventSource → Application W → Env W → Result (Unit {0}) String × Env W
  unfolding settle_autostart
  set_autostart_enabled enabled source app env =
      let (previous, w) = autostart.is_enabled env.world in
      let (r, w') = autostart.set_enabled enabled w in
      settle_autostart (to_option previous) enabled source app r (record env { world = w' })

  unfoldable pub refresh_autostart_tray_state : Application W → Env W → Env W
  unfolding with_on_off
  refresh_autostart_tray_state app env =
      let (r, w) = autostart.is_enabled env.world in
      let env' = record env { world = w } in
      elim r [
        | ok enabled ↦
            sync_tray_autostart_with_logging enabled application
              (with_on_off
                "Wardoff could not update the tray checkbox while refreshing Start with Windows "
                enabled "")
              app env'
        | err message ↦
            log_event "autostart_state_read" application
              (format (
                "Wardoff could not query scheduled task \\Wardoff while initializing the tray checkbox: "
                ∷ message ∷ []))
              false
              (sync_tray_autostart_with_logging false application
                "Wardoff could not update the tray checkbox while falling back to Start with Windows off during initialization"
                app env')
      ]
