-- ===== src/Blocker/Update/Worker.antt =====
-- The worker thread and the controller of Layer 3, src/blocker/update.rs. As in `Blocker/Remote`,
-- the thread is a phase and a flag for the stop message, and `worker_step` is its next turn.
use wardoff.Prelude.{
  Bool, true, false, Option, none, some, String, Result, ok, err, format, [], ◌∷◌, is_some,
  if◌then◌else◌,
}
use wardoff.Logger.Journal.{Env}
use wardoff.Blocker.Windows.{Windows, WinError, WinResult}
use wardoff.Blocker.Update.{
  RestoreState, default_restore, ensure_reboot_task_disabled, restore_task_if_needed,
  is_access_denied_error, about_task, log_update,
}

pub data Phase : Type 0 where
  starting polling finished : Phase

pub record UpdateRebootWorker : Type 0 where
  pub phase : Phase
  pub stop_queued : Bool

pub record UpdateRebootBlocker : Type 0 where
  pub worker : Option UpdateRebootWorker
  pub active_state : Bool
  pub restore_state : RestoreState

unfoldable pub default : UpdateRebootBlocker
default = record { worker = none; active_state = false; restore_state = default_restore }

unfoldable pub is_active : UpdateRebootBlocker → Bool
is_active b = b.active_state

with_error : String → String → String → String
with_error before after error = format (about_task before after ∷ error ∷ [])

abbrev finish : UpdateRebootWorker → UpdateRebootBlocker → UpdateRebootBlocker
finish worker b = record b { worker = some (record worker { phase = finished }) }

module _ {W : Type 0} (sys : Windows W) where
  log_start_failure : WinError → Env W → Env W
  unfolding is_access_denied_error with_error
  log_start_failure e env =
      log_update "update_monitoring_started"
        (if is_access_denied_error e.code
          then with_error "Layer 3 could not access scheduled task " ": " e.text
          else with_error "Layer 3 could not query scheduled task " ": " e.text)
        false env

  log_stop_failure : WinError → Env W → Env W
  unfolding is_access_denied_error with_error
  log_stop_failure e env =
      log_update "update_monitoring_stopped"
        (if is_access_denied_error e.code
          then with_error "Layer 3 lost access to scheduled task " ": " e.text
          else with_error "Layer 3 polling stopped after a Task Scheduler error for " ": " e.text)
        false env

  uninitialize : Env W → Env W
  uninitialize env = record env { world = sys.co_uninitialize env.world }

  -- Up to the polling loop. `ok false` and an error end the thread with no restoration.
  begin_monitoring : Env W → UpdateRebootWorker → UpdateRebootBlocker → UpdateRebootBlocker × Env W
  unfolding log_start_failure uninitialize
  begin_monitoring env worker b =
      let (r, s, env') = ensure_reboot_task_disabled sys b.restore_state env in
      let b' = record b { restore_state = s } in
      elim r [
        | err e ↦ (finish worker b', uninitialize (log_start_failure e env'))
        | ok watching ↦
            if watching
            then (
              record b' { worker = some (record worker { phase = polling }); active_state = true },
              log_update "update_monitoring_started"
                  (about_task "Layer 3 started monitoring scheduled task "
                    " every 300 seconds while Block mode is active.")
                  true env',
            )
            else (finish worker b', uninitialize env')
      ]

  start : Env W → UpdateRebootWorker → UpdateRebootBlocker → UpdateRebootBlocker × Env W
  unfolding begin_monitoring with_error
  start env worker b =
      let (r, w) = sys.co_initialize env.world in
      let env' = record env { world = w } in
      elim r [
        | ok _ ↦ begin_monitoring env' worker b
        | err e ↦ (
          finish worker b,
          log_update "update_monitoring_started"
              (with_error "Layer 3 could not initialize the COM apartment before monitoring " ": "
                e.text)
              false env',
        )
      ]

  log_clean_stop : Bool → Env W → Env W
  log_clean_stop true env =
      log_update "update_monitoring_stopped"
        (about_task "Layer 3 stopped monitoring scheduled task " " as Block mode ended.") true env
  log_clean_stop false env = env

  -- After the loop: the active flag falls, the task is restored, and a clean stop is logged.
  leave : Bool → Env W → UpdateRebootWorker → UpdateRebootBlocker → UpdateRebootBlocker × Env W
  unfolding log_clean_stop uninitialize
  leave stopped_cleanly env worker b = (
    record (finish worker b) { active_state = false },
    uninitialize (log_clean_stop stopped_cleanly (restore_task_if_needed sys b.restore_state env)),
  )

  poll : Env W → UpdateRebootWorker → UpdateRebootBlocker → UpdateRebootBlocker × Env W
  unfolding leave log_stop_failure
  poll env worker b =
      let (r, s, env') = ensure_reboot_task_disabled sys b.restore_state env in
      let b' = record b { restore_state = s } in
      elim r [
        | err e ↦ leave false (log_stop_failure e env') worker b'
        | ok watching ↦ if watching then (b', env') else leave true env' worker b'
      ]

  turn : Phase → Env W → UpdateRebootWorker → UpdateRebootBlocker → UpdateRebootBlocker × Env W
  unfolding start poll leave
  turn starting env worker b = start env worker b
  turn polling env worker b =
      if worker.stop_queued then leave true env worker b else poll env worker b
  turn finished env worker b = (b, env)

  unfoldable pub worker_step : UpdateRebootBlocker → Env W → UpdateRebootBlocker × Env W
  unfolding turn
  worker_step b env = elim b.worker [
    | none ↦ (b, env)
    | some worker ↦ turn worker.phase env worker b
  ]

  spawn_worker :
      UpdateRebootBlocker → Env W → Result (Unit {0}) String × UpdateRebootBlocker × Env W
  spawn_worker b env =
      let (spawned, w) = sys.spawn_thread "wardoff-layer3-update-reboot" env.world in
      let env' = record env { world = w } in
      elim spawned [
        | ok _ ↦ (
          ok tt,
          record b { worker = some (record { phase = starting; stop_queued = false }) },
          env',
        )
        | err error ↦
            (err (format ("Layer 3 could not start its polling thread: " ∷ error ∷ [])), b, env')
      ]

  spawn_if_elevated :
      WinResult Bool
      → UpdateRebootBlocker
      → Env W
      → Result (Unit {0}) String × UpdateRebootBlocker × Env W
  unfolding spawn_worker with_error
  spawn_if_elevated (ok true) b env = spawn_worker b env
  spawn_if_elevated (ok false) b env = (
    ok tt,
    b,
    log_update "update_monitoring_started"
        (about_task "Layer 3 skipped scheduled task " " because administrator rights are required.")
        false env,
  )
  spawn_if_elevated (err e) b env = (
    ok tt,
    b,
    log_update "update_monitoring_started"
        (with_error
          "Layer 3 could not determine whether administrator rights are available before monitoring "
          ": " e.text)
        false env,
  )

  unfoldable pub activate :
      UpdateRebootBlocker → Env W → Result (Unit {0}) String × UpdateRebootBlocker × Env W
  unfolding spawn_if_elevated
  activate b env =
      let (elevated, w) = sys.is_process_elevated env.world in
      if is_some b.worker
      then (ok tt, b, env)
      else spawn_if_elevated elevated (record b { restore_state = default_restore })
          (record env { world = w })

  unfoldable pub begin_forced_shutdown_cleanup : UpdateRebootBlocker → UpdateRebootBlocker
  begin_forced_shutdown_cleanup b = elim b.worker [
    | none ↦ b
    | some worker ↦ record b {
      worker = some (record worker { stop_queued = true });
      active_state = false;
    }
  ]

  -- `join` waits for the rest of the thread's turns: two are enough.
  unfoldable pub deactivate : UpdateRebootBlocker → Env W → UpdateRebootBlocker × Env W
  unfolding begin_forced_shutdown_cleanup
  deactivate b env =
      let stopping = begin_forced_shutdown_cleanup b in
      let (b', env') = worker_step stopping env in
      let (b'', env'') = worker_step b' env' in (record b'' { worker = none }, env'')
