-- ===== src/Blocker/Update.antt =====
-- Layer 3, src/blocker/update.rs: the state of the blocker and what it does to the scheduled task.
-- The mutex of `RestoreState` is never poisoned, since no code that holds it panics.
pub mod Worker
pub mod Restore
pub mod Lifecycle
use wardoff.Prelude.{
  Bool, true, false, ◌||◌, Option, none, some, String, Result, ok, err, format, List, [], ◌∷◌,
  if◌then◌else◌,
}
use wardoff.Logger.Journal.{Env, update_orchestrator, log_event}
use wardoff.Blocker.Windows.{
  Windows, WinError, WinResult, Code, e_accessdenied, error_access_denied, error_file_not_found,
  error_path_not_found, error_not_found,
}

pub record RestoreState : Type 0 where
  pub original_state_recorded : Bool
  pub restore_enabled_on_exit : Bool

abbrev pub default_restore : RestoreState
default_restore = record { original_state_recorded = false; restore_enabled_on_exit = false }

pub data RebootTaskLookup : Type 0 where
  task missing_folder missing_task : RebootTaskLookup

unfoldable pub is_not_found_error : Code → Bool
is_not_found_error error_file_not_found = true
is_not_found_error error_path_not_found = true
is_not_found_error error_not_found = true
is_not_found_error _ = false

unfoldable pub is_access_denied_error : Code → Bool
is_access_denied_error e_accessdenied = true
is_access_denied_error error_access_denied = true
is_access_denied_error _ = false

abbrev task_path : String
task_path = "\\Microsoft\\Windows\\UpdateOrchestrator\\Reboot"

abbrev folder_path : String
folder_path = "\\Microsoft\\Windows\\UpdateOrchestrator"

pub about_task : String → String → String
about_task before after = format (before ∷ task_path ∷ after ∷ [])

pub about_folder : String → String → String
about_folder before after = format (before ∷ folder_path ∷ after ∷ [])

redisabled_message : Bool → String
redisabled_message true =
    about_task "Layer 3 re-disabled scheduled task " " after Windows re-enabled it."
redisabled_message false =
    about_task "Layer 3 disabled scheduled task "
      " after it was re-enabled during Block mode; it will remain disabled on exit because it was already disabled before Layer 3 started."

no_folder_message : String
no_folder_message = format (
    "Layer 3 could not restore " ∷ task_path ∷ " because the folder " ∷ folder_path
    ∷ " is not present." ∷ [])

about_error : String → String → WinError → String
about_error before after e = format (before ∷ task_path ∷ after ∷ e.text ∷ [])

missing_folder_message : String
missing_folder_message =
    about_folder "Layer 3 skipped because the Task Scheduler folder "
      " does not exist on this machine."

missing_task_message : String
missing_task_message =
    about_task "Layer 3 skipped because the scheduled task " " does not exist on this machine."

module _ {W : Type 0} where
  unfoldable pub log_update : String → String → Bool → Env W → Env W
  unfolding log_event
  log_update event action success = log_event event update_orchestrator action success

module _ {W : Type 0} (sys : Windows W) where
  unfoldable pub lookup_reboot_task : W → WinResult RebootTaskLookup × W
  unfolding is_not_found_error
  lookup_reboot_task w =
      let (folder, w') = sys.open_folder w in
      elim folder [
        | err e ↦ (if is_not_found_error e.code then ok missing_folder else err e, w')
        | ok _ ↦
            let (found, w'') = sys.get_task w' in
            elim found [
              | ok _ ↦ (ok task, w'')
              | err e ↦ (if is_not_found_error e.code then ok missing_task else err e, w'')
            ]
      ]

  -- The first look at the task: its state is recorded, and it is disabled if it was enabled.
  first_look : Bool → RestoreState → Env W → WinResult Bool × RestoreState × Env W
  first_look false s env = (
    ok true,
    record s { original_state_recorded = true },
    log_update "update_task_disabled"
        (about_task "Layer 3 found scheduled task " " already disabled and is only monitoring it.")
        true env,
  )
  first_look true s env =
      let (r, w) = sys.set_task_enabled false env.world in
      elim r [
        | err e ↦ (err e, record s { original_state_recorded = true }, record env { world = w })
        | ok _ ↦ (
          ok true,
          record { original_state_recorded = true; restore_enabled_on_exit = true },
          log_update "update_task_disabled"
              (about_task "Layer 3 disabled scheduled task " " while Block mode is active.") true
              (record env { world = w }),
        )
      ]

  -- Every later look: the task is disabled again if something enabled it.
  later_look : Bool → RestoreState → Env W → WinResult Bool × RestoreState × Env W
  unfolding redisabled_message
  later_look false s env = (ok true, s, env)
  later_look true s env =
      let (r, w) = sys.set_task_enabled false env.world in
      elim r [
        | err e ↦ (err e, s, record env { world = w })
        | ok _ ↦ (
          ok true,
          s,
          log_update "update_task_disabled" (redisabled_message s.restore_enabled_on_exit) true
              (record env { world = w }),
        )
      ]

  look : RestoreState → Env W → WinResult Bool × RestoreState × Env W
  unfolding first_look later_look
  look s env =
      let (enabled, w) = sys.task_enabled env.world in
      let env' = record env { world = w } in
      elim enabled [
        | err e ↦ (err e, s, env')
        | ok on ↦ if s.original_state_recorded then later_look on s env' else first_look on s env'
      ]

  -- `ok false` when there is no such task to watch.
  unfoldable pub ensure_reboot_task_disabled :
      RestoreState → Env W → WinResult Bool × RestoreState × Env W
  unfolding lookup_reboot_task look missing_folder_message missing_task_message
  ensure_reboot_task_disabled s env =
      let (found, w) = lookup_reboot_task env.world in
      let env' = record env { world = w } in
      elim found [
        | err e ↦ (err e, s, env')
        | ok l ↦ elim l [
          | task ↦ look s env'
          | missing_folder ↦ (
            ok false,
            s,
            log_update "update_monitoring_started" missing_folder_message false env',
          )
          | missing_task ↦
              (ok false, s, log_update "update_monitoring_started" missing_task_message false env')
        ]
      ]

  log_enabled : String → Bool → Env W → Env W
  log_enabled action success env = log_update "update_task_enabled" action success env

  reenable : Env W → Env W
  unfolding log_enabled about_error
  reenable env =
      let (enabled, w) = sys.task_enabled env.world in
      let env' = record env { world = w } in
      elim enabled [
        | err e ↦
            log_enabled
              (about_error "Layer 3 could not query scheduled task " " during restore: " e) false
              env'
        | ok on ↦
            if on
            then log_enabled
                (about_task "Layer 3 left scheduled task " " enabled as Block mode ended.") true
                env'
            else let (r, w') = sys.set_task_enabled true w in
              let env'' = record env { world = w' } in
              elim r [
                | err e ↦
                    log_enabled (about_error "Layer 3 could not re-enable scheduled task " ": " e)
                      false env''
                | ok _ ↦
                    log_enabled
                      (about_task "Layer 3 re-enabled scheduled task " " as Block mode ended.") true
                      env''
              ]
      ]

  restore_found : WinResult RebootTaskLookup → Env W → Env W
  unfolding reenable log_enabled no_folder_message about_error
  restore_found (err e) env =
      log_enabled (about_error "Layer 3 could not restore scheduled task " ": " e) false env
  restore_found (ok task) env = reenable env
  restore_found (ok missing_folder) env = log_enabled no_folder_message false env
  restore_found (ok missing_task) env =
      log_enabled (about_task "Layer 3 could not restore " " because the task is not present.")
        false env

  unfoldable pub restore_task_if_needed : RestoreState → Env W → Env W
  unfolding restore_found lookup_reboot_task
  restore_task_if_needed s env =
      let (found, w) = lookup_reboot_task env.world in
      if s.restore_enabled_on_exit then restore_found found (record env { world = w }) else env
