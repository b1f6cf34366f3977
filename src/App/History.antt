-- ===== src/App/History.antt =====
-- Every history of `Application` (src/main.rs) in which Windows does not end the session.
use wardoff.Prelude.{
  ℕ, Bool, Option, none, some, String, Result, ok, err, List, [], ◌∷◌, ◌≡◌, refl, arith,
}
use wardoff.Logger.Journal.{Env, tray, ipc}
use wardoff.Blocker.Windows.{Windows}
use wardoff.Blocker.ShutdownBlocker.{PowerBroadcastEvent}
use wardoff.Blocker.Coordinator.{BlockerMode, block, allow, BlockerCoordinator}
use wardoff.Blocker.Power.{PowerAction}
use wardoff.Blocker.Coordinator.History.{
  local_turn, update_turn, remote_turn, operate, operate-IsConsistent,
}
use wardoff.Policy.{IpcRequest, blocker_mode}
use wardoff.App.{
  Application, Autostart, set_mode, with_mode, clear_pending_block_restore_after_wake,
}
use wardoff.App.Power.{handle_power_broadcast, run_power_action}
use wardoff.App.Requests.{
  TrayAction, handle_ipc_request, answer_mode, answer_autostart, handle_tray_action, processed,
}
use wardoff.App.Invariant.{
  AppInv, chosen-AppInv, run_power_action-AppInv, handle_power_broadcast-AppInv,
}

pub data WorkerTurn : Type 0 where
  local update remote : WorkerTurn

-- What the message loop handles, and the turns of the worker threads between; a request comes with
-- the uptime at which it is answered.
pub data Event : Type 0 where
  requested : ℕ → IpcRequest → Event
  chosen : TrayAction → Event
  broadcast : PowerBroadcastEvent → Event
  worker_turn : WorkerTurn → Event

module _ {W : Type 0} (sys : Windows W) (autostart : Autostart W) where
  turn : WorkerTurn → BlockerCoordinator → Env W → BlockerCoordinator × Env W
  turn local c env = operate sys local_turn c env
  turn update c env = operate sys update_turn c env
  turn remote c env = operate sys remote_turn c env

  unfoldable pub handle : Event → Application W → Env W → Application W × Env W
  unfolding turn
  handle (requested uptime request) app env =
      let (response, app', env') = handle_ipc_request sys autostart uptime request app env in
      (app', env')
  handle (chosen action) app env =
      let (r, app', env') = handle_tray_action sys autostart action app env in (app', env')
  handle (broadcast event) app env = handle_power_broadcast sys event app env
  handle (worker_turn w) app env =
      let (c, env') = turn w app.blocker_coordinator env in (with_mode c app, env')

  unfoldable pub handle_all : List Event → Application W → Env W → Application W × Env W
  unfolding handle
  handle_all [] app env = (app, env)
  handle_all (event ∷ events) app env =
      let (app', env') = handle event app env in handle_all events app' env'

  answer_mode-app :
      (mode : BlockerMode) (r : Result (Unit {0}) String) (app : Application W) (env : Env W)
      → (answer_mode sys autostart mode (r, app, env)).1 ≡ app
  unfolding answer_mode
  answer_mode-app mode (ok _) app env = refl
  answer_mode-app mode (err _) app env = refl

  processed-app :
      (message : Option String) (r : Result (Unit {0}) String) (app : Application W) (env : Env W)
      → (processed sys autostart message (r, app, env)).1 ≡ app
  unfolding processed
  processed-app message r app env = ground arith

  set_autostart-AppInv :
      (enabled : Bool) (app : Application W) (env : Env W)
      → AppInv app
      → AppInv (handle_tray_action sys autostart (TrayAction.set_autostart enabled) app env).1
  unfolding handle_tray_action processed
  set_autostart-AppInv enabled app env h = ground (arith, h)

  ipc_autostart-AppInv :
      (uptime : ℕ) (enabled : Bool) (app : Application W) (env : Env W)
      → AppInv app
      → AppInv
          (handle_ipc_request sys autostart uptime (IpcRequest.set_autostart enabled) app env).1
  unfolding handle_ipc_request answer_autostart
  ipc_autostart-AppInv uptime enabled app env h = ground (arith, h)

  handle_ipc_request-AppInv :
      (uptime : ℕ) (request : IpcRequest) (app : Application W) (env : Env W)
      → AppInv app
      → AppInv (handle_ipc_request sys autostart uptime request app env).1
  unfolding handle_ipc_request
  handle_ipc_request-AppInv uptime (IpcRequest.set_mode mode) app env h =
      let (r, app', env') =
        set_mode sys (blocker_mode mode) ipc (clear_pending_block_restore_after_wake app) env in
      rw (answer_mode-app (blocker_mode mode) r app' env')
        (chosen-AppInv sys (blocker_mode mode) ipc app env h.0)
  handle_ipc_request-AppInv uptime (IpcRequest.set_autostart enabled) app env h =
      ipc_autostart-AppInv uptime enabled app env h
  handle_ipc_request-AppInv uptime IpcRequest.status app env h = h
  handle_ipc_request-AppInv uptime IpcRequest.shutdown_server app env h = h

  mode_choice-AppInv :
      (mode : BlockerMode) (message : Option String) (app : Application W) (env : Env W)
      → AppInv app
      → AppInv
          (processed sys autostart message
            (set_mode sys mode tray (clear_pending_block_restore_after_wake app) env)).1
  mode_choice-AppInv mode message app env h =
      let (r, app', env') =
        set_mode sys mode tray (clear_pending_block_restore_after_wake app) env in
      rw (processed-app message r app' env') (chosen-AppInv sys mode tray app env h.0)

  power_choice-AppInv :
      (action : PowerAction) (app : Application W) (env : Env W)
      → AppInv app
      → AppInv (processed sys autostart none (run_power_action sys action app env)).1
  power_choice-AppInv action app env h =
      let (r, app', env') = run_power_action sys action app env in
      rw (processed-app none r app' env') (run_power_action-AppInv sys action app env h)

  handle_tray_action-AppInv :
      (action : TrayAction) (app : Application W) (env : Env W)
      → AppInv app
      → AppInv (handle_tray_action sys autostart action app env).1
  unfolding handle_tray_action
  handle_tray_action-AppInv TrayAction.block app env h =
      mode_choice-AppInv block (some "Wardoff processed a Block request from the tray menu.") app
        env h
  handle_tray_action-AppInv TrayAction.allow app env h =
      mode_choice-AppInv allow (some "Wardoff processed an Allow request from the tray menu.") app
        env h
  handle_tray_action-AppInv (TrayAction.set_autostart enabled) app env h =
      set_autostart-AppInv enabled app env h
  handle_tray_action-AppInv TrayAction.shutdown app env h =
      power_choice-AppInv PowerAction.shutdown app env h
  handle_tray_action-AppInv TrayAction.reboot app env h =
      power_choice-AppInv PowerAction.reboot app env h
  handle_tray_action-AppInv TrayAction.sleep app env h =
      power_choice-AppInv PowerAction.sleep app env h
  handle_tray_action-AppInv TrayAction.hibernate app env h =
      power_choice-AppInv PowerAction.hibernate app env h
  handle_tray_action-AppInv TrayAction.quit app env h = h

  turn-AppInv :
      (w : WorkerTurn) (app : Application W) (env : Env W)
      → AppInv app
      → AppInv (handle (worker_turn w) app env).0
  unfolding handle turn operate with_mode
  turn-AppInv local app env h =
      (operate-IsConsistent sys local_turn app.blocker_coordinator env h.0, h.1)
  turn-AppInv update app env h =
      (operate-IsConsistent sys update_turn app.blocker_coordinator env h.0, h.1)
  turn-AppInv remote app env h =
      (operate-IsConsistent sys remote_turn app.blocker_coordinator env h.0, h.1)

  handle-AppInv :
      (event : Event) (app : Application W) (env : Env W)
      → AppInv app
      → AppInv (handle event app env).0
  unfolding handle
  handle-AppInv (requested uptime request) app env h =
      handle_ipc_request-AppInv uptime request app env h
  handle-AppInv (chosen action) app env h = handle_tray_action-AppInv action app env h
  handle-AppInv (broadcast event) app env h = handle_power_broadcast-AppInv sys event app env h
  handle-AppInv (worker_turn w) app env h = turn-AppInv w app env h

  pub handle_all-AppInv :
      (events : List Event) (app : Application W) (env : Env W)
      → AppInv app
      → AppInv (handle_all events app env).0
  unfolding handle_all
  handle_all-AppInv [] app env h = h
  handle_all-AppInv (event ∷ events) app env h =
      let (app', env') = handle event app env in
      handle_all-AppInv events app' env' (handle-AppInv event app env h)
