-- ===== src/Tray/Thread.antt =====
-- The tray thread of src/tray/mod.rs: its state and the commands it takes. Creation holds how it
-- creates the icon, Turns its loop.
pub mod Creation
pub mod History
pub mod Commanded
pub mod Mirror
pub mod Recovery
pub mod Turns
use wardoff.Prelude.{
  ℕ, ◌+◌, ◌-◌, leb, Bool, true, false, not, Option, none, some, String, Result, ok, err, map_err,
  format, List, [], ◌∷◌, if◌then◌else◌,
}
use wardoff.Logger.Journal.{Env, tray, log_event, on_world}
use wardoff.Blocker.Coordinator.{BlockerMode}
use wardoff.App.Requests.{TrayAction}
use wardoff.Tray.{
  TrayVisibility, Gui, TrayController, MenuId, drain_actions, create_tray_controller,
  set_autostart_enabled,
}
use wardoff.Tray

-- TRAY_RETRY_INTERVAL and TRAY_UNAVAILABLE_WARNING_INTERVAL.
abbrev pub retry_interval : ℕ
retry_interval = 2000

abbrev pub warning_interval : ℕ
warning_interval = 30000

pub record TrayThreadState : Type 0 where
  pub visibility : TrayVisibility
  pub mode : BlockerMode
  pub autostart_enabled : Bool
  pub controller : Option TrayController
  pub creation_failure_reported : Bool
  pub waiting_since : Option ℕ
  pub next_retry_at : ℕ
  pub last_warning_at : Option ℕ

pub data TrayCommand : Type 0 where
  set_mode : BlockerMode → TrayCommand
  set_autostart : Bool → TrayCommand
  shutdown : TrayCommand

abbrev pub or_now : Option ℕ → ℕ → Option ℕ
or_now none now = some now
or_now (some since) now = some since

-- How long ago a moment was, against a limit.
abbrev pub has_elapsed : Option ℕ → ℕ → ℕ → Bool
has_elapsed none limit now = false
has_elapsed (some since) limit now = leb limit (now - since)

unfoldable pub initial_state : TrayVisibility → BlockerMode → ℕ → TrayThreadState
initial_state visibility mode now = record {
  visibility = visibility;
  mode = mode;
  autostart_enabled = false;
  controller = none;
  creation_failure_reported = false;
  waiting_since = none;
  next_retry_at = now;
  last_warning_at = none;
}

-- The clock is read once; the source reads it again for each time stamp.
unfoldable pub reset_tray_controller : ℕ → TrayThreadState → TrayThreadState
reset_tray_controller now state = record state {
  controller = none;
  creation_failure_reported = false;
  waiting_since = or_now state.waiting_since now;
  last_warning_at = or_now state.last_warning_at now;
  next_retry_at = now;
}

switch_label : Bool → String
switch_label true = "enabled"
switch_label false = "disabled"

mode_name : BlockerMode → String
mode_name BlockerMode.block = "Block"
mode_name BlockerMode.allow = "Allow"

module _ {W : Type 0} (gui : Gui W) where
  unfoldable pub apply_to :
      Option TrayController
      → TrayThreadState
      → Env W
      → Result (Unit {0}) String × TrayThreadState × Env W
  apply_to none state env = (ok tt, state, env)
  apply_to (some controller) state env =
      let (r, controller', env') =
        Tray.set_mode gui state.mode (set_autostart_enabled state.autostart_enabled controller)
          env in
      (r, record state { controller = some controller' }, env')

  unfoldable pub apply_current_tray_state :
      TrayThreadState → Env W → Result (Unit {0}) String × TrayThreadState × Env W
  unfolding apply_to
  apply_current_tray_state state env = apply_to state.controller state env

  unfoldable pub log_tray_update_failure_and_reset :
      String → TrayThreadState → Env W → TrayThreadState × Env W
  unfolding reset_tray_controller
  log_tray_update_failure_and_reset message state env = (
    reset_tray_controller (gui.now env.world) state,
    log_event "tray_update_failed" tray message false env,
  )

  unfoldable pub reset_on_error :
      (String → String)
      → Result (Unit {0}) String × TrayThreadState × Env W
      → Result (Unit {0}) String × TrayThreadState × Env W
  unfolding log_tray_update_failure_and_reset
  reset_on_error message (ok _, state, env) = (ok tt, state, env)
  reset_on_error message (err error, state, env) =
      let (state', env') = log_tray_update_failure_and_reset (message error) state env in
      (err error, state', env')

  abbrev goes_on :
      Result (Unit {0}) String × TrayThreadState × Env W
      → Bool × Result (Unit {0}) String × TrayThreadState × Env W
  goes_on (r, state, env) = (false, r, state, env)

  -- The command's result is what the caller of `set_mode` waits for; `true` ends the thread.
  unfoldable pub handle_tray_command :
      TrayCommand
      → TrayThreadState
      → Env W
      → Bool × Result (Unit {0}) String × TrayThreadState × Env W
  unfolding apply_current_tray_state reset_on_error switch_label mode_name
  handle_tray_command (set_mode mode) state env = goes_on (
      reset_on_error
        (λ error. format (
          "Wardoff could not apply the current tray state after changing blocker mode to "
          ∷ mode_name mode
          ∷ ": "
          ∷ error
          ∷ ". Resetting the tray controller and retrying tray creation."
          ∷ []))
        (apply_current_tray_state (record state { mode = mode }) env))
  handle_tray_command (set_autostart enabled) state env = goes_on (
      reset_on_error
        (λ error. format (
          "Wardoff could not apply the current tray state after changing Start with Windows to "
          ∷ switch_label enabled
          ∷ ": "
          ∷ error
          ∷ ". Resetting the tray controller and retrying tray creation."
          ∷ []))
        (apply_current_tray_state (record state { autostart_enabled = enabled }) env))
  handle_tray_command shutdown state env = (true, ok tt, state, env)

  unfoldable pub handle_taskbar_created : Bool → TrayThreadState → Env W → TrayThreadState × Env W
  unfolding reset_tray_controller
  handle_taskbar_created false state env = (state, env)
  handle_taskbar_created true state env = (
    reset_tray_controller (gui.now env.world) state,
    log_event "tray_reinitialize_requested" tray
        "Wardoff detected an Explorer restart and will recreate its tray icon." true env,
  )
