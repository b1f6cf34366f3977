-- ===== src/Blocker/Coordinator.antt =====
-- `BlockerCoordinator` of src/blocker/mod.rs: the mode and the five layers, and the changes of mode.
-- The Layer 1 windows exist; if a value is dropped on an error path, its layers are gone with it.
pub mod Consistency
pub mod Switching
pub mod History
pub mod Forced
use wardoff.Prelude.{
  ℕ, Bool, true, false, String, Result, ok, err, map_err, format, List, [], ◌∷◌, if◌then◌else◌,
}
use wardoff.Logger.Journal.{Env}
use wardoff.Blocker.Windows.{Windows, WinResult, WinError}
use wardoff.Blocker.SleepBlocker.{SleepBlocker}
use wardoff.Blocker.SleepBlocker
use wardoff.Blocker.ShutdownBlocker.{ShutdownBlocker}
use wardoff.Blocker.ShutdownBlocker
use wardoff.Blocker.Remote.{RemoteShutdownBlocker}
use wardoff.Blocker.Remote
use wardoff.Blocker.Update.Worker.{UpdateRebootBlocker}
use wardoff.Blocker.Update.Worker as Update
use wardoff.Blocker.Local.{LocalShutdownBlocker}
use wardoff.Blocker.Local

pub data BlockerMode : Type 0 where
  block allow : BlockerMode

pub record LayerStatus : Type 0 where
  pub shutdown : Bool
  pub local_shutdown : Bool
  pub update : Bool
  pub remote : Bool
  pub sleep : Bool

pub record BlockerCoordinator : Type 0 where
  pub mode : BlockerMode
  pub shutdown_blocker : ShutdownBlocker
  pub local_shutdown_blocker : LocalShutdownBlocker
  pub update_reboot_blocker : UpdateRebootBlocker
  pub remote_shutdown_blocker : RemoteShutdownBlocker
  pub sleep_blocker : SleepBlocker

abbrev pub same_mode : BlockerMode → BlockerMode → Bool
same_mode block block = true
same_mode allow allow = true
same_mode _ _ = false

unfoldable pub layer_status : BlockerCoordinator → LayerStatus
layer_status c = record {
  shutdown = ShutdownBlocker.is_active c.shutdown_blocker;
  local_shutdown = Local.is_active c.local_shutdown_blocker;
  update = Update.is_active c.update_reboot_blocker;
  remote = Remote.is_active c.remote_shutdown_blocker;
  sleep = SleepBlocker.is_active c.sleep_blocker;
}

abbrev pub Outcome : Type 0 → Type 0
Outcome W = Result (Unit {0}) String × BlockerCoordinator × Env W

layer_1_error : WinError → String
layer_1_error e = format ("Layer 1 could not enter Block mode: " ∷ e.text ∷ [])

allow_error : WinError → String
allow_error e = format (
    "Wardoff could not fully switch to Allow mode because Layer 1 could not deactivate: " ∷ e.text
    ∷ [])

rollback_message : String → WinResult (Unit {0}) → String
rollback_message error (ok _) = format (
    "Wardoff could not switch to Block mode: " ∷ error
    ∷ ". Wardoff rolled back safely to Allow mode." ∷ [])
rollback_message error (err rollback_error) = format (
    "Wardoff could not switch to Block mode: " ∷ error
    ∷ ". Wardoff also failed to roll Layer 1 back to Allow mode: " ∷ rollback_error.text ∷ [])

module _ {W : Type 0} (sys : Windows W) where
  -- The `?` of the source: what follows runs if the step before it succeeded.
  abbrev and_then : Outcome W → (BlockerCoordinator → Env W → Outcome W) → Outcome W
  and_then (ok _, c, env) next = next c env
  and_then (err e, c, env) next = (err e, c, env)

  activate_local : BlockerCoordinator → Env W → Outcome W
  activate_local c env =
      let (r, b, env') = Local.activate sys c.local_shutdown_blocker env in
      (r, record c { local_shutdown_blocker = b }, env')

  activate_update : BlockerCoordinator → Env W → Outcome W
  activate_update c env =
      let (r, b, env') = Update.activate sys c.update_reboot_blocker env in
      (r, record c { update_reboot_blocker = b }, env')

  activate_remote : BlockerCoordinator → Env W → Outcome W
  activate_remote c env =
      let (r, b, env') = Remote.activate sys c.remote_shutdown_blocker env in
      (r, record c { remote_shutdown_blocker = b }, env')

  activate_sleep : BlockerCoordinator → Env W → Outcome W
  activate_sleep c env =
      let (r, b, env') = SleepBlocker.activate sys.power c.sleep_blocker env in
      (r, record c { sleep_blocker = b }, env')

  activate_shutdown : BlockerCoordinator → Env W → Outcome W
  unfolding layer_1_error
  activate_shutdown c env =
      let (r, b, env') = ShutdownBlocker.activate sys c.shutdown_blocker env in
      (map_err layer_1_error r, record c { shutdown_blocker = b }, env')

  unfoldable pub activate_layers : BlockerCoordinator → Env W → Outcome W
  unfolding activate_local activate_update activate_remote activate_sleep activate_shutdown
  activate_layers c env = and_then (activate_local c env) λ c₁ env₁.
      and_then (activate_update c₁ env₁) λ c₂ env₂.
        and_then (activate_remote c₂ env₂)
          λ c₃ env₃. and_then (activate_sleep c₃ env₃) activate_shutdown

  -- Layers 5, 4, 3 and 2, in that order.
  unfoldable pub deactivate_others : BlockerCoordinator → Env W → BlockerCoordinator × Env W
  deactivate_others c env =
      let (sleep_blocker, env₁) = SleepBlocker.deactivate sys.power c.sleep_blocker env in
      let (remote_blocker, env₂) = Remote.deactivate sys c.remote_shutdown_blocker env₁ in
      let (update_blocker, env₃) = Update.deactivate sys c.update_reboot_blocker env₂ in
      let (local_blocker, env₄) = Local.deactivate sys c.local_shutdown_blocker env₃ in
      (
        record c {
          sleep_blocker = sleep_blocker;
          remote_shutdown_blocker = remote_blocker;
          update_reboot_blocker = update_blocker;
          local_shutdown_blocker = local_blocker;
        },
        env₄,
      )

  unfoldable pub rollback_failed_block_activation :
      String → BlockerCoordinator → Env W → String × BlockerCoordinator × Env W
  unfolding rollback_message
  rollback_failed_block_activation error c env =
      let (c', env') = deactivate_others c env in
      let (r, b, env'') = ShutdownBlocker.deactivate sys c'.shutdown_blocker env' in
      (rollback_message error r, record c' { shutdown_blocker = b }, env'')

  rollback_if_failed : Outcome W → Outcome W
  rollback_if_failed (ok _, c, env) = (ok tt, c, env)
  rollback_if_failed (err error, c, env) =
      let (message, c', env') = rollback_failed_block_activation error c env in
      (err message, c', env')

  unfoldable pub activate_block_mode : BlockerCoordinator → Env W → Outcome W
  unfolding rollback_if_failed
  activate_block_mode c env = rollback_if_failed (activate_layers c env)

  -- Layer 1 goes first, and the other layers follow also when it fails.
  unfoldable pub activate_allow_mode : BlockerCoordinator → Env W → Outcome W
  unfolding allow_error
  activate_allow_mode c env =
      let (r, b, env') = ShutdownBlocker.deactivate sys c.shutdown_blocker env in
      let (c', env'') = deactivate_others (record c { shutdown_blocker = b }) env' in
      (map_err allow_error r, c', env'')

  enter_mode : BlockerMode → BlockerCoordinator → Env W → Outcome W
  enter_mode block c env = activate_block_mode c env
  enter_mode allow c env = activate_allow_mode c env

  commit_mode : BlockerMode → Outcome W → Result Bool String × BlockerCoordinator × Env W
  commit_mode mode (ok _, c, env) = (ok true, record c { mode = mode }, env)
  commit_mode mode (err e, c, env) = (err e, c, env)

  unfoldable pub set_mode :
      BlockerMode → BlockerCoordinator → Env W → Result Bool String × BlockerCoordinator × Env W
  unfolding enter_mode commit_mode
  set_mode mode c env =
      if same_mode c.mode mode then (ok false, c, env) else commit_mode mode (enter_mode mode c env)

  -- `deactivate` and `shutdown`.
  unfoldable pub deactivate : BlockerCoordinator → Env W → Outcome W
  deactivate c env =
      let (r, c', env') = set_mode allow c env in
      (elim r [ ok _ ↦ ok tt | err e ↦ err e ], c', env')

  unfoldable pub renew_sleep_requests_after_resume : BlockerCoordinator → Env W → Outcome W
  renew_sleep_requests_after_resume c env =
      let (r, b, env') = SleepBlocker.renew_after_resume sys.power c.sleep_blocker env in
      if same_mode c.mode block then (r, record c { sleep_blocker = b }, env') else (ok tt, c, env)

  unfoldable pub forced_shutdown_cleanup : BlockerCoordinator → Env W → BlockerCoordinator × Env W
  forced_shutdown_cleanup c env =
      let (b, env') = SleepBlocker.begin_forced_shutdown_cleanup sys.power c.sleep_blocker env in
      (
        record c {
          update_reboot_blocker = Update.begin_forced_shutdown_cleanup sys c.update_reboot_blocker;
          sleep_blocker = b;
          remote_shutdown_blocker =
              Remote.begin_forced_shutdown_cleanup sys c.remote_shutdown_blocker;
          mode = allow;
        },
        env',
      )

abbrev pub idle : BlockerCoordinator
idle = record {
  mode = allow;
  shutdown_blocker = ShutdownBlocker.new;
  local_shutdown_blocker = Local.default;
  update_reboot_blocker = Update.default;
  remote_shutdown_blocker = Remote.default;
  sleep_blocker = SleepBlocker.default;
}

module _ {W : Type 0} (sys : Windows W) where
  -- `BlockerCoordinator::new`.
  unfoldable pub create : BlockerMode → Env W → Result BlockerCoordinator String × Env W
  create initial_mode env =
      let (r, c, env') = set_mode sys initial_mode idle env in
      (elim r [ ok _ ↦ ok c | err e ↦ err e ], env')
