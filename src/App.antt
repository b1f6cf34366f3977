-- ===== src/App.antt =====
-- `Application` of src/main.rs: the coordinator together with the tray, the autostart task, and the
-- Block mode that a tray sleep owes after the wake. Lines that only go to the human-readable log
-- (`info!`, `warn!`, `error!`) are left out; the structured records are kept.

pub mod MessageLoop
pub mod Modes
pub mod Power
pub mod AutostartTask
pub mod Requests
pub mod Invariant
pub mod Lifecycle
pub mod History
pub mod Promises
pub mod Actions
pub mod Wake
use wardoff.Prelude.{
  Bool, true, false, Option, none, some, String, Result, ok, err, format, [], ◌∷◌, if◌then◌else◌,
}
use wardoff.Logger.Journal.{Env, EventSource, log_event}
use wardoff.Blocker.Windows.{Windows}
use wardoff.Blocker.Coordinator.{BlockerMode, block, allow, BlockerCoordinator, same_mode}
use wardoff.Blocker.Power.{PowerAction}
use wardoff.Blocker.Coordinator
use wardoff.Policy.{PendingWakeRestore}

-- What the application calls of `TrayServiceHandle` (src/tray/mod.rs).
pub record TrayServiceHandle (W : Type 0) : Type 0 where
  pub set_mode : BlockerMode → W → Result (Unit {0}) String × W
  pub set_autostart_enabled : Bool → W → Result (Unit {0}) String × W
  pub shutdown : W → W

-- What it calls of src/autostart.rs.
pub record Autostart (W : Type 0) : Type 0 where
  pub is_enabled : W → Result Bool String × W
  pub set_enabled : Bool → W → Result (Unit {0}) String × W

pub record Application (W : Type 0) : Type 0 where
  pub blocker_coordinator : BlockerCoordinator
  pub tray_service : Option (TrayServiceHandle W)
  pub forced_shutdown_cleanup_completed : Bool
  pub pending_block_restore_after_wake : Option PendingWakeRestore

abbrev pub Outcome : Type 0 → Type 0
Outcome W = Result (Unit {0}) String × Application W × Env W

unfoldable pub mode_label : BlockerMode → String
mode_label block = "Block"
mode_label allow = "Allow"

unfoldable pub power_action_label : PowerAction → String
power_action_label PowerAction.shutdown = "shutdown"
power_action_label PowerAction.reboot = "reboot"
power_action_label PowerAction.sleep = "sleep"
power_action_label PowerAction.hibernate = "hibernate"

unfoldable pub on_off_label : Bool → String
on_off_label true = "on"
on_off_label false = "off"

switch_error : BlockerMode → BlockerMode → String → String
unfolding mode_label
switch_error previous mode error = format (
    "Wardoff could not switch from "
    ∷ mode_label previous
    ∷ " mode to "
    ∷ mode_label mode
    ∷ " mode: "
    ∷ error
    ∷ [])

tray_update_error : BlockerMode → String → String
unfolding mode_label
tray_update_error mode error = format (
    "Wardoff could not update the tray UI after switching to "
    ∷ mode_label mode
    ∷ " mode: "
    ∷ error
    ∷ [])

rollback_report : BlockerMode → BlockerMode → Result Bool String → String
unfolding mode_label
rollback_report previous final (ok _) =
    format (" Wardoff rolled the blocker state back to " ∷ mode_label previous ∷ " mode." ∷ [])
rollback_report previous final (err error) = format (
    " Wardoff could not roll the blocker state back to "
    ∷ mode_label previous
    ∷ " mode and is currently in "
    ∷ mode_label final
    ∷ " mode: "
    ∷ error
    ∷ [])

resync_report : BlockerMode → Result (Unit {0}) String → String
unfolding mode_label
resync_report final (ok _) = ""
resync_report final (err error) =
    format
      (" Wardoff also could not resync the tray UI to " ∷ mode_label final ∷ " mode: " ∷ error ∷ [])

switched_message : BlockerMode → BlockerMode → String
unfolding mode_label
switched_message previous mode =
    format (
      "Wardoff switched from "
      ∷ mode_label previous
      ∷ " mode to "
      ∷ mode_label mode
      ∷ " mode."
      ∷ [])

module _ {W : Type 0} where
  unfoldable pub with_mode : BlockerCoordinator → Application W → Application W
  with_mode c app = record app { blocker_coordinator = c }

  tray_set_mode : Option (TrayServiceHandle W) → BlockerMode → W → Result (Unit {0}) String × W
  tray_set_mode none mode w = (ok tt, w)
  tray_set_mode (some tray) mode w = tray.set_mode mode w

  unfoldable pub sync_tray : BlockerMode → Application W → Env W → Result (Unit {0}) String × Env W
  unfolding tray_set_mode
  sync_tray mode app env =
      let (r, w) = tray_set_mode app.tray_service mode env.world in (r, record env { world = w })

  unfoldable pub clear_pending_block_restore_after_wake : Application W → Application W
  clear_pending_block_restore_after_wake app = record app {
    pending_block_restore_after_wake = none;
  }

module _ {W : Type 0} (sys : Windows W) where
  unfoldable pub roll_back_mode :
      BlockerMode → BlockerMode → String → EventSource → Application W → Env W → Outcome W
  unfolding with_mode sync_tray tray_update_error rollback_report resync_report
  roll_back_mode previous mode tray_error source app env =
      let (r, c, env₁) = Coordinator.set_mode sys previous app.blocker_coordinator env in
      let (resync, env₂) = sync_tray c.mode (with_mode c app) env₁ in
      let message = format (
        tray_update_error mode tray_error
        ∷ rollback_report previous c.mode r
        ∷ resync_report c.mode resync
        ∷ []) in
      (err message, with_mode c app, log_event "state_changed" source message false env₂)

  unfoldable pub settle_tray :
      BlockerMode
      → BlockerMode
      → EventSource
      → Application W
      → Result (Unit {0}) String × Env W
      → Outcome W
  unfolding switched_message
  settle_tray previous mode source app (ok _, env) =
      (ok tt, app, log_event "state_changed" source (switched_message previous mode) true env)
  settle_tray previous mode source app (err tray_error, env) =
      roll_back_mode previous mode tray_error source app env

  unfoldable pub settle_switch :
      BlockerMode
      → EventSource
      → Application W
      → Result Bool String × BlockerCoordinator × Env W
      → Outcome W
  unfolding with_mode switch_error
  settle_switch mode source app (ok _, c, env) =
      settle_tray app.blocker_coordinator.mode mode source (with_mode c app)
        (sync_tray c.mode (with_mode c app) env)
  settle_switch mode source app (err e, c, env) =
      let message = switch_error app.blocker_coordinator.mode mode e in
      (err message, with_mode c app, log_event "state_changed" source message false env)

  unfoldable pub set_mode : BlockerMode → EventSource → Application W → Env W → Outcome W
  unfolding sync_tray
  set_mode mode source app env =
      let (r, env') = sync_tray app.blocker_coordinator.mode app env in
      if same_mode app.blocker_coordinator.mode mode
      then (r, app, env')
      else settle_switch mode source app (Coordinator.set_mode sys mode app.blocker_coordinator env)
