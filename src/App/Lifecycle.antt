-- ===== src/App/Lifecycle.antt =====
-- The start and the end of `Application` (src/main.rs): `bootstrap`, `run_with_cleanup`, `shutdown`.
use wardoff.Prelude.{
  and_then, Bool, true, false, Option, none, some, String, Result, ok, err, format, List, [], ◌∷◌,
  map,
}
use wardoff.Logger.Journal.{Env, Attempt, on_world, application, log_event}
use wardoff.Blocker.Windows.{Windows}
use wardoff.Blocker.Coordinator.{BlockerMode, BlockerCoordinator, create}
use wardoff.Blocker.Coordinator
use wardoff.Ipc.{IpcResponse}
use wardoff.Policy.{TraySurface, visible, hidden, headless, RuntimeOptions}
use wardoff.App.{TrayServiceHandle, Autostart, Application, mode_label, with_mode}
use wardoff.App.AutostartTask.{refresh_autostart_tray_state}

-- What `bootstrap` and `shutdown` call of src/tray/mod.rs, src/ipc.rs and src/logger/mod.rs.
pub record Services (W : Type 0) : Type 0 where
  pub initialize_structured_logging : W → Result (Unit {0}) String × W
  pub spawn_tray_service : Bool → BlockerMode → W → Result (TrayServiceHandle W) String × W
  pub start_ipc_server : W → Result (Unit {0}) String × W
  pub begin_shutdown : W → W
  pub shutdown_ipc_server : W → Result (Unit {0}) String × W
  pub shutdown_structured_logging : W → W

unfoldable pub tray_surface_label : TraySurface → String
tray_surface_label visible = "a visible tray icon"
tray_surface_label hidden = "a hidden tray icon"
tray_surface_label headless = "no tray icon"

application_start_message : RuntimeOptions → String
unfolding mode_label tray_surface_label
application_start_message options = format (
    "Wardoff started in "
    ∷ mode_label options.initial_mode
    ∷ " mode with "
    ∷ tray_surface_label options.tray_surface
    ∷ "."
    ∷ [])

first_transition_message : RuntimeOptions → String
unfolding mode_label
first_transition_message options = format (
    "Wardoff transitioned from inactive to "
    ∷ mode_label options.initial_mode
    ∷ " mode during startup."
    ∷ [])

module _ {W : Type 0} where
  unfoldable pub new : BlockerCoordinator → Option (TrayServiceHandle W) → Application W
  new c tray_service = record {
    blocker_coordinator = c;
    tray_service = tray_service;
    forced_shutdown_cleanup_completed = false;
    pending_block_restore_after_wake = none;
  }

module _ {W : Type 0} (sys : Windows W) (autostart : Autostart W) (services : Services W) where
  unfoldable pub spawned :
      Attempt W (TrayServiceHandle W) → Attempt W (Option (TrayServiceHandle W))
  spawned (ok tray, env) = (ok (some tray), env)
  spawned (err e, env) = (err e, env)

  unfoldable pub spawn_surface :
      TraySurface → BlockerMode → Env W → Attempt W (Option (TrayServiceHandle W))
  unfolding spawned
  spawn_surface headless mode env = (ok none, env)
  spawn_surface visible mode env = spawned (on_world (services.spawn_tray_service true mode) env)
  spawn_surface hidden mode env = spawned (on_world (services.spawn_tray_service false mode) env)

  unfoldable pub log_start : RuntimeOptions → Env W → Env W
  unfolding application_start_message first_transition_message
  log_start options env =
      log_event "state_changed" application (first_transition_message options) true
        (log_event "application_started" application (application_start_message options) true env)

  unfoldable pub bootstrap : RuntimeOptions → Env W → Attempt W (Application W)
  unfolding spawn_surface log_start
  bootstrap options env = and_then (on_world services.initialize_structured_logging env) λ _ env₁.
      and_then (create sys options.initial_mode env₁) λ c env₂.
        and_then (spawn_surface options.tray_surface c.mode env₂) λ tray_service env₃.
          and_then (on_world services.start_ipc_server env₃) λ _ env₄.
            let app = new c tray_service in
            (ok app, refresh_autostart_tray_state autostart app (log_start options env₄))

  shutdown_tray : Option (TrayServiceHandle W) → W → W
  shutdown_tray none w = w
  shutdown_tray (some tray) w = tray.shutdown w

  unfoldable pub combine_errors :
      Result (Unit {0}) String → Result (Unit {0}) String → Result (Unit {0}) String
  combine_errors (ok _) (ok _) = ok tt
  combine_errors (err ipc_error) (ok _) = err ipc_error
  combine_errors (ok _) (err blocker_error) = err blocker_error
  combine_errors (err ipc_error) (err blocker_error) = err (
      format (
        "Wardoff encountered shutdown errors in both the IPC server and blocker coordinator: "
        ∷ ipc_error ∷ "; " ∷ blocker_error ∷ []))

  log_stop : Result (Unit {0}) String → Env W → Env W
  log_stop (ok _) env =
      log_event "application_stopped" application "Wardoff shut down cleanly." true env
  log_stop (err e) env =
      log_event "application_stopped" application
        (format ("Wardoff shut down with an error: " ∷ e ∷ [])) false env

  -- `shutdown`, with the number of requests still waiting; each is answered that Wardoff stops.
  unfoldable pub shutdown :
      List (Unit {0})
      → Application W
      → Env W
      → List IpcResponse × Result (Unit {0}) String × Application W × Env W
  unfolding shutdown_tray combine_errors log_stop
  shutdown waiting app env =
      let env₁ = record env { world = services.begin_shutdown env.world } in
      let answers = map (λ _. IpcResponse.error "Wardoff is shutting down.") waiting in
      let (ipc, env₂) = on_world services.shutdown_ipc_server env₁ in
      let (r, c, env₃) = Coordinator.deactivate sys app.blocker_coordinator env₂ in
      let env₄ = record env₃ { world = shutdown_tray app.tray_service env₃.world } in
      let env₅ = log_stop (combine_errors ipc r) env₄ in
      (
        answers,
        combine_errors ipc r,
        with_mode c app,
        record env₅ { world = services.shutdown_structured_logging env₅.world },
      )
