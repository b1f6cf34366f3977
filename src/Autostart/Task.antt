-- ===== src/Autostart/Task.antt =====
-- The scheduled task of src/autostart.rs. The Task Scheduler's COM calls are a parameter.
use wardoff.Prelude.{
  Bool, true, false, Option, none, some, String, is_empty, Result, ok, err, and_then, on_error,
  format, List, [], ◌∷◌, ◌++◌, if◌then◌else◌,
}

-- The HRESULTs that the program tells apart; `not_found` stands for the three it treats alike,
-- `access_denied` for the two.
pub data TaskError : Type 0 where
  not_found access_denied other : String → TaskError

-- The calls that fill a task definition, in the source's words.
pub data Setting : Type 0 where
  registration_info principal settings triggers create_logon_trigger cast_logon_trigger : Setting
  actions create_exec_action cast_exec_action : Setting
  author description principal_id principal_user_id start_boundary : String → Setting
  trigger_id trigger_user_id exec_path exec_working_directory : String → Setting
  execution_time_limit : String → Setting
  logon_type_interactive_token run_level_highest multiple_instances_ignore_new : Setting
  allow_demand_start stop_if_going_on_batteries disallow_start_if_on_batteries : Bool → Setting
  start_when_available settings_enabled trigger_enabled : Bool → Setting

-- COM, the Task Scheduler with one task in question, and the clock; `get_task` gives its `Enabled`.
pub record Scheduler (W : Type 0) : Type 0 where
  pub spawn : W → Result (Unit {0}) String × W
  pub initialize_com_apartment : W → Result (Unit {0}) String × W
  pub uninitialize_com_apartment : W → W
  pub connect_task_service : W → Result (Unit {0}) TaskError × W
  pub get_root_folder : W → Result (Unit {0}) TaskError × W
  pub new_task : W → Result (Unit {0}) TaskError × W
  pub set : Setting → W → Result (Unit {0}) TaskError × W
  pub local_time : W → String
  pub register_task_definition : W → Result (Unit {0}) TaskError × W
  pub delete_task : W → Result (Unit {0}) TaskError × W
  pub get_task : W → Result (Unit {0}) TaskError × W
  pub task_is_enabled : W → Result Bool TaskError × W

unfoldable pub task_service_error : TaskError → String
task_service_error (access_denied error) = format (
    "Wardoff could not access scheduled task \\Wardoff. Run Wardoff elevated and try again: "
    ∷ error ∷ [])
task_service_error (not_found error) =
    format ("Wardoff could not update scheduled task \\Wardoff: " ∷ error ∷ [])
task_service_error (other error) =
    format ("Wardoff could not update scheduled task \\Wardoff: " ∷ error ∷ [])

-- `configure_registration_info` to `configure_exec_action`, one after the other.
abbrev configure_registration_info : List Setting
configure_registration_info =
    registration_info
    ∷ author "Wardoff"
    ∷ description "Starts Wardoff at current-user logon with the highest available privileges."
    ∷ []

abbrev configure_principal : String → List Setting
configure_principal user_id =
    principal
    ∷ principal_id "WardoffPrincipal"
    ∷ principal_user_id user_id
    ∷ logon_type_interactive_token
    ∷ run_level_highest
    ∷ []

abbrev configure_settings : List Setting
configure_settings =
    settings
    ∷ allow_demand_start true
    ∷ multiple_instances_ignore_new
    ∷ stop_if_going_on_batteries false
    ∷ disallow_start_if_on_batteries false
    ∷ start_when_available true
    ∷ execution_time_limit "PT0S"
    ∷ settings_enabled true
    ∷ []

abbrev configure_logon_trigger : String → String → List Setting
configure_logon_trigger user_id boundary =
    triggers
    ∷ create_logon_trigger
    ∷ cast_logon_trigger
    ∷ trigger_id "WardoffLogonTrigger"
    ∷ trigger_enabled true
    ∷ start_boundary boundary
    ∷ trigger_user_id user_id
    ∷ []

abbrev working_directory_setting : String → List Setting
working_directory_setting working_directory =
    if is_empty working_directory then [] else exec_working_directory working_directory ∷ []

abbrev configure_exec_action : String → String → List Setting
configure_exec_action executable_path working_directory =
    actions
    ∷ create_exec_action
    ∷ cast_exec_action
    ∷ exec_path executable_path
    ∷ working_directory_setting working_directory

unfoldable pub found : {A : Type 0} → Result A TaskError → Result (Option A) TaskError
found (ok a) = ok (some a)
found (err (not_found error)) = ok none
found (err (access_denied error)) = err (access_denied error)
found (err (other error)) = err (other error)

unfoldable pub removed : Result (Unit {0}) TaskError → Result Bool TaskError
removed (ok _) = ok true
removed (err (not_found error)) = ok false
removed (err (access_denied error)) = err (access_denied error)
removed (err (other error)) = err (other error)

module _ {W : Type 0} (scheduler : Scheduler W) where
  -- The guard leaves the apartment when the operation is over.
  unfoldable pub within_apartment :
      {A : Type 0} → (W → Result A String × W) → Result (Unit {0}) String × W → Result A String × W
  within_apartment operation (err error, w) = (err error, w)
  within_apartment operation (ok _, w) =
      let (r, w') = operation w in (r, scheduler.uninitialize_com_apartment w')

  -- The operation does not panic, so the join does not fail.
  unfoldable pub run_task_scheduler :
      {A : Type 0} → (W → Result A String × W) → W → Result A String × W
  unfolding within_apartment
  run_task_scheduler operation w =
      and_then
        (on_error
          (λ error. format ("Wardoff could not start its autostart worker thread: " ∷ error ∷ []))
          (scheduler.spawn w))
        λ _ w₁. within_apartment operation (
          on_error
            (λ error. format (
              "Wardoff could not initialize the COM apartment for Task Scheduler access: " ∷ error
              ∷ []))
            (scheduler.initialize_com_apartment w₁))

  unfoldable pub lookup_autostart_task : W → Result (Option (Unit {0})) TaskError × W
  unfolding found
  lookup_autostart_task w =
      and_then (scheduler.get_root_folder w)
        λ _ w₁. let (r, w₂) = scheduler.get_task w₁ in (found r, w₂)

  unfoldable pub enabled_of : Option (Unit {0}) → W → Result Bool TaskError × W
  enabled_of (some _) w = scheduler.task_is_enabled w
  enabled_of none w = (ok false, w)

  unfoldable pub task_enabled : W → Result Bool TaskError × W
  unfolding lookup_autostart_task enabled_of
  task_enabled w = and_then (lookup_autostart_task w) λ task w'. enabled_of task w'

  unfoldable pub configure : List Setting → W → Result (Unit {0}) TaskError × W
  configure [] w = (ok tt, w)
  configure (setting ∷ rest) w = and_then (scheduler.set setting w) λ _ w'. configure rest w'

  abbrev pub definition : String → String → String → String → List Setting
  definition user_id executable_path working_directory boundary =
      configure_registration_info
      ++ configure_principal user_id
      ++ configure_settings
      ++ configure_logon_trigger user_id boundary
      ++ configure_exec_action executable_path working_directory

  -- The boundary's clock is read when the definition is begun.
  unfoldable pub register_autostart_task :
      String → String → String → W → Result (Unit {0}) TaskError × W
  unfolding configure
  register_autostart_task user_id executable_path working_directory w =
      and_then (scheduler.new_task w) λ _ w₁.
        and_then
          (configure
            (definition user_id executable_path working_directory (scheduler.local_time w₁)) w₁)
          λ _ w₂.
            and_then (scheduler.get_root_folder w₂) λ _ w₃. scheduler.register_task_definition w₃

  unfoldable pub remove_autostart_task : W → Result Bool TaskError × W
  unfolding removed
  remove_autostart_task w =
      and_then (scheduler.get_root_folder w)
        λ _ w₁. let (r, w₂) = scheduler.delete_task w₁ in (removed r, w₂)
