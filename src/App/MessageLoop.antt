-- ===== src/App/MessageLoop.antt =====
-- The message loop of src/main.rs: what `run_message_loop` does with each message, the requests and
-- the tray actions that wait, and `WaitMessage`.
use wardoff.Prelude.{
  ℕ, Bool, true, false, Option, none, some, String, Result, ok, err, List, [], ◌∷◌, ◌++◌,
  if◌then◌else◌,
}
use wardoff.Logger.Journal.{Env, on_world}
use wardoff.Blocker.Windows.{Windows}
use wardoff.Blocker.ShutdownBlocker.{PowerBroadcastEvent}
use wardoff.Policy.{IpcRequest}
use wardoff.Ipc.{IpcResponse}
use wardoff.App.{Application, Autostart}
use wardoff.App.Power.{handle_power_broadcast, handle_forced_shutdown_cleanup}
use wardoff.App.Requests.{TrayAction, handle_ipc_request, process_tray_actions}

-- A message taken from the queue: WM_QUIT, one of the two wake messages, or one that is dispatched;
-- `idle` is the end of the queue.
pub data Message : Type 0 where
  quit wake idle dispatch : Message
  power_broadcast : PowerBroadcastEvent → Message
  end_session : Message

-- With the requests that wait when it has been handled, each with the uptime at its answer, and the
-- actions of the tray.
pub record Turn : Type 0 where
  pub message : Message
  pub requests : List (ℕ × IpcRequest)
  pub actions : List TrayAction

abbrev is_quit_message : Message → Bool
is_quit_message quit = true
is_quit_message _ = false

module _ {W : Type 0} (sys : Windows W) (autostart : Autostart W) where
  unfoldable pub process_ipc_requests :
      List (ℕ × IpcRequest) → Application W → Env W → List IpcResponse × Application W × Env W
  process_ipc_requests [] app env = ([], app, env)
  process_ipc_requests ((uptime, request) ∷ requests) app env =
      let (response, app₁, env₁) = handle_ipc_request sys autostart uptime request app env in
      let (responses, app₂, env₂) = process_ipc_requests requests app₁ env₁ in
      (response ∷ responses, app₂, env₂)

  -- The callbacks that the window procedures of a dispatched message call.
  unfoldable pub dispatch_message : Message → Application W → Env W → Application W × Env W
  dispatch_message (power_broadcast event) app env = handle_power_broadcast sys event app env
  dispatch_message end_session app env = handle_forced_shutdown_cleanup sys app env
  dispatch_message _ app env = (app, env)

  drained : Application W → List TrayAction → List TrayAction
  drained app actions = elim app.tray_service [ none ↦ [] | some service ↦ actions ]

  -- One message, to the check of the tray actions; `true` leaves the loop.
  unfoldable pub handle_message :
      Turn → Application W → Env W → Bool × List IpcResponse × Application W × Env W
  unfolding process_ipc_requests dispatch_message drained
  handle_message turn app env =
      let (app₁, env₁) = dispatch_message turn.message app env in
      let (responses, app₂, env₂) = process_ipc_requests turn.requests app₁ env₁ in
      let (quits, app₃, env₃) =
        process_tray_actions sys autostart (drained app₂ turn.actions) app₂ env₂ in
      (quits, responses, app₃, env₃)

  -- `WaitMessage` at the end of the queue.
  unfoldable pub wait_if_idle :
      (W → Result (Unit {0}) String × W) → Message → Env W → Result (Unit {0}) String × Env W
  wait_if_idle wait_message idle env = on_world wait_message env
  wait_if_idle wait_message _ env = (ok tt, env)

  -- How the loop ended, if the turns given reach its end, and every answer it gave.
  unfoldable pub run_message_loop :
      (W → Result (Unit {0}) String × W)
      → List Turn
      → Application W
      → Env W
      → Option (Result (Unit {0}) String) × List IpcResponse × Application W × Env W
  unfolding handle_message wait_if_idle
  run_message_loop wait_message [] app env = (none, [], app, env)
  run_message_loop wait_message (turn ∷ turns) app env =
      let (quits, responses, app₁, env₁) = handle_message turn app env in
      let (waited, env₂) = wait_if_idle wait_message turn.message env₁ in
      let (ended, more, app₃, env₃) = run_message_loop wait_message turns app₁ env₂ in
      if is_quit_message turn.message
      then (some (ok tt), [], app, env)
      else if quits
      then (some (ok tt), responses, app₁, env₁)
      else elim waited [
        | ok _ ↦ (ended, responses ++ more, app₃, env₃)
        | err error ↦ (some (err error), responses, app₁, env₂)
      ]
