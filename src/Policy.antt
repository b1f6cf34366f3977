-- ===== src/Policy.antt =====
-- The pure decisions of src/runtime_policy.rs, and the dispatch of src/main.rs that they rely on.
-- `none` stands for an `unreachable!`, which panics.
pub mod Dispatch
use wardoff.Prelude.{Bool, true, false, Option, none, some, String, Result, ok, err, ok_or}
use wardoff.Blocker.Coordinator.{BlockerMode}
use wardoff.Blocker.Power.{PowerAction}
use wardoff.Cli.{RequestedAction}

pub data PipeMode : Type 0 where
  block allow : PipeMode

pub data IpcRequest : Type 0 where
  set_mode : PipeMode → IpcRequest
  set_autostart : Bool → IpcRequest
  status shutdown_server : IpcRequest

-- `impl From<PipeMode> for BlockerMode` of src/ipc.rs.
unfoldable pub blocker_mode : PipeMode → BlockerMode
blocker_mode PipeMode.block = BlockerMode.block
blocker_mode PipeMode.allow = BlockerMode.allow

pub data TraySurface : Type 0 where
  visible hidden headless : TraySurface

pub record RuntimeOptions : Type 0 where
  pub initial_mode : BlockerMode
  pub tray_surface : TraySurface

pub data PendingWakeRestore : Type 0 where
  pending_suspend waiting_for_resume : PowerAction → PendingWakeRestore

unfoldable pub pending_action : PendingWakeRestore → PowerAction
pending_action (pending_suspend action) = action
pending_action (waiting_for_resume action) = action

unfoldable pub mark_system_suspended : PendingWakeRestore → PendingWakeRestore
unfolding pending_action
mark_system_suspended pending = waiting_for_resume (pending_action pending)

unfoldable pub runtime_options_for : RequestedAction → Option RuntimeOptions
runtime_options_for RequestedAction.default =
    some (record { initial_mode = BlockerMode.block; tray_surface = visible })
runtime_options_for RequestedAction.block =
    some (record { initial_mode = BlockerMode.block; tray_surface = headless })
runtime_options_for RequestedAction.allow =
    some (record { initial_mode = BlockerMode.allow; tray_surface = visible })
runtime_options_for RequestedAction.hide =
    some (record { initial_mode = BlockerMode.block; tray_surface = hidden })
runtime_options_for (RequestedAction.autostart enabled) = none
runtime_options_for RequestedAction.status = none
runtime_options_for (RequestedAction.log tail) = none

unfoldable pub ipc_request_for : RequestedAction → Option IpcRequest
ipc_request_for RequestedAction.default = some (set_mode PipeMode.block)
ipc_request_for RequestedAction.block = some (set_mode PipeMode.block)
ipc_request_for RequestedAction.hide = some (set_mode PipeMode.block)
ipc_request_for RequestedAction.allow = some (set_mode PipeMode.allow)
ipc_request_for (RequestedAction.autostart enabled) = some (set_autostart enabled)
ipc_request_for RequestedAction.status = none
ipc_request_for (RequestedAction.log tail) = none

unfoldable pub pending_wake_restore_for_tray_power_action :
    BlockerMode → PowerAction → Option PendingWakeRestore
pending_wake_restore_for_tray_power_action BlockerMode.block PowerAction.sleep =
    some (pending_suspend PowerAction.sleep)
pending_wake_restore_for_tray_power_action BlockerMode.block PowerAction.hibernate =
    some (pending_suspend PowerAction.hibernate)
pending_wake_restore_for_tray_power_action _ _ = none

unfoldable pub pending_wake_restore_ready_for_resume :
    Option PendingWakeRestore → Option PowerAction
pending_wake_restore_ready_for_resume none = none
pending_wake_restore_ready_for_resume (some (pending_suspend action)) = some action
pending_wake_restore_ready_for_resume (some (waiting_for_resume action)) = some action

unfoldable pub resolved_autostart_state_for_tray :
    Option Bool → Result Bool String → Result Bool String
resolved_autostart_state_for_tray previous_state (ok actual_state) = ok actual_state
resolved_autostart_state_for_tray previous_state (err error) = ok_or previous_state error
