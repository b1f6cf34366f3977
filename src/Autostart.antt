-- ===== src/Autostart.antt =====
-- The logon task that starts Wardoff, src/autostart.rs: `is_enabled` and `set_enabled`.
pub mod Task
pub mod Location
pub mod Principal
pub mod Safety
pub mod RoundTrip
use wardoff.Prelude.{
  Bool, true, false, Option, none, some, String, Result, ok, err, map_err, and_then, on_error,
  format, List, [], ◌∷◌,
}
use wardoff.Logger.Journal.{Env, Attempt, autostart, log_event, on_world}
use wardoff.Autostart.Task.{
  Scheduler, run_task_scheduler, task_enabled, task_service_error, register_autostart_task,
  remove_autostart_task,
}
use wardoff.Autostart.Location.{Access, ensure_trusted_autostart_location}
use wardoff.Autostart.Principal.{Accounts, current_user_id}

-- The process: its elevation (src/windows_util.rs), its path, and the folder of a path.
pub record Process (W : Type 0) : Type 0 where
  pub is_process_elevated : W → Result Bool String × W
  pub current_exe : W → Result String String × W
  pub canonicalize : String → W → Result String String × W
  pub parent : String → Option String

pub record Machine (W : Type 0) : Type 0 where
  pub process : Process W
  pub accounts : Accounts W
  pub access : Access W
  pub scheduler : Scheduler W

abbrev or_empty : Option String → String
or_empty none = ""
or_empty (some path) = path

unfoldable pub check_elevation : Result Bool String → Result (Unit {0}) String
check_elevation (ok true) = ok tt
check_elevation (ok false) =
    err
      "Wardoff requires administrator rights to change scheduled task \\Wardoff. Run Wardoff elevated and try again."
check_elevation (err error) = err (
    format (
      "Wardoff could not determine whether administrator rights are available before changing scheduled task \\Wardoff: "
      ∷ error ∷ []))

module _ {W : Type 0} where
  unfoldable pub current_executable_path : Process W → W → Result String String × W
  current_executable_path process w =
      and_then
        (on_error
          (λ error. format (
            "Wardoff could not resolve its current executable path before updating \\Wardoff: "
            ∷ error ∷ []))
          (process.current_exe w))
        λ path w'.
          on_error
            (λ error. format (
              "Wardoff could not canonicalize its current executable path before updating \\Wardoff: "
              ∷ error ∷ []))
            (process.canonicalize path w')

  unfoldable pub current_working_directory : Process W → String → String
  current_working_directory process executable_path = or_empty (process.parent executable_path)

  unfoldable pub ensure_process_is_elevated : Process W → W → Result (Unit {0}) String × W
  unfolding check_elevation
  ensure_process_is_elevated process w =
      let (r, w') = process.is_process_elevated w in (check_elevation r, w')

registered_message : String → String
registered_message executable_path = format (
    "Wardoff registered or updated scheduled task \\Wardoff to launch " ∷ executable_path
    ∷ " at current-user logon with the highest available privileges." ∷ [])

removed_message : Bool → String
removed_message true = "Wardoff removed scheduled task \\Wardoff."
removed_message false =
    "Wardoff found no scheduled task \\Wardoff; Start with Windows was already off."

unfoldable pub log_outcome : {W : Type 0} → Attempt W String → Attempt W (Unit {0})
log_outcome (ok message, env) =
    (ok tt, log_event "autostart_task_updated" autostart message true env)
log_outcome (err message, env) =
    (err message, log_event "autostart_task_updated" autostart message false env)

module _ {W : Type 0} (machine : Machine W) where
  unfoldable pub is_enabled : W → Result Bool String × W
  unfolding run_task_scheduler task_enabled
  is_enabled w =
      run_task_scheduler machine.scheduler
        (λ w₁.
          and_then (on_error task_service_error (machine.scheduler.connect_task_service w₁))
            λ _ w₂. on_error task_service_error (task_enabled machine.scheduler w₂))
        w

  unfoldable pub check_location : Bool → String → String → W → Result (Unit {0}) String × W
  check_location false executable_path working_directory w = (ok tt, w)
  check_location true executable_path working_directory w =
      ensure_trusted_autostart_location machine.access executable_path working_directory w

  unfoldable pub update_task : Bool → String → String → String → W → Result String String × W
  unfolding registered_message removed_message
  update_task true user_id executable_path working_directory w =
      run_task_scheduler machine.scheduler
        (λ w₁.
          and_then (on_error task_service_error (machine.scheduler.connect_task_service w₁)) λ _ w₂.
            and_then
              (on_error task_service_error (
                register_autostart_task machine.scheduler user_id executable_path working_directory
                  w₂))
              λ _ w₃. (ok (registered_message executable_path), w₃))
        w
  update_task false user_id executable_path working_directory w =
      run_task_scheduler machine.scheduler
        (λ w₁.
          and_then (on_error task_service_error (machine.scheduler.connect_task_service w₁)) λ _ w₂.
            and_then (on_error task_service_error (remove_autostart_task machine.scheduler w₂))
              λ removed w₃. (ok (removed_message removed), w₃))
        w

  -- What stands between the elevation check and the update: its errors are returned, not recorded.
  unfoldable pub prepare : Bool → W → Result (String × String × String) String × W
  unfolding current_executable_path current_working_directory check_location
  prepare enabled w = and_then (current_executable_path machine.process w) λ executable_path w₁.
      let working_directory = current_working_directory machine.process executable_path in
      and_then (current_user_id machine.accounts w₁) λ user_id w₂.
        and_then (check_location enabled executable_path working_directory w₂)
          λ _ w₃. (ok (user_id, executable_path, working_directory), w₃)

  unfoldable pub update_prepared :
      Bool → Attempt W (String × String × String) → Attempt W (Unit {0})
  unfolding update_task log_outcome
  update_prepared enabled (err error, env) = (err error, env)
  update_prepared enabled (ok (user_id, executable_path, working_directory), env) =
      log_outcome (on_world (update_task enabled user_id executable_path working_directory) env)

  unfoldable pub after_elevation : Bool → Attempt W (Unit {0}) → Attempt W (Unit {0})
  unfolding prepare update_prepared
  after_elevation enabled (err message, env) =
      (err message, log_event "autostart_task_updated" autostart message false env)
  after_elevation enabled (ok _, env) = update_prepared enabled (on_world (prepare enabled) env)

  unfoldable pub set_enabled : Bool → Env W → Attempt W (Unit {0})
  unfolding ensure_process_is_elevated after_elevation
  set_enabled enabled env =
      after_elevation enabled (on_world (ensure_process_is_elevated machine.process) env)
