-- ===== src/Ipc/Startup.antt =====
-- The handshake of the two pipe servers with `IpcServer::start`, its clean-up, and
-- `IpcServer::shutdown` (src/ipc.rs).
pub mod Outcome
use wardoff.Prelude.{
  ℕ, zero, suc, Bool, true, false, Option, none, some, String, Result, ok, err, List, [], ◌∷◌,
  format, ◌&&◌, not, if◌then◌else◌,
}
use wardoff.Logger.Journal.{Env, Attempt, ipc, log_event, on_world}
use wardoff.Ipc.{IpcResponse}
use wardoff.Ipc.Connect.{ClientError, unavailable, transport}

pub data ServerStartupKind : Type 0 where
  control status : ServerStartupKind

pub record ServerStartupResult : Type 0 where
  pub kind : ServerStartupKind
  pub result : Result (Unit {0}) String

-- The steps of the clean-up and of the shutdown; a join fails when its thread panicked.
pub record Servers (W : Type 0) : Type 0 where
  pub request_status_shutdown : W → W
  pub wake_status_server : W → W
  pub send_shutdown_server : W → Result IpcResponse ClientError × W
  pub join_control : W → Result (Unit {0}) String × W
  pub join_status : W → Result (Unit {0}) String × W

-- Which of the two threads are still to be joined.
pub record IpcServer : Type 0 where
  pub control_join_handle : Bool
  pub status_join_handle : Bool

abbrev pub running : IpcServer
running = record { control_join_handle = true; status_join_handle = true }

abbrev pub is_control : ServerStartupKind → Bool
is_control control = true
is_control status = false

unfoldable pub check_answer : Result IpcResponse ClientError → Result (Unit {0}) String
check_answer (ok IpcResponse.ok) = ok tt
check_answer (err unavailable) = ok tt
check_answer (ok (IpcResponse.error message)) =
    err (format ("Wardoff could not stop its IPC server cleanly: " ∷ message ∷ []))
check_answer (ok (IpcResponse.status output)) =
    err "Wardoff received an unexpected status payload while stopping its IPC server."
check_answer (err (transport message)) = err message

module _ {W : Type 0} (servers : Servers W) where
  unfoldable pub tell_control : Bool → W → W
  tell_control true w = (servers.send_shutdown_server w).1
  tell_control false w = w

  unfoldable pub cleanup_failed_server_startup : Bool → W → W
  unfolding tell_control
  cleanup_failed_server_startup control_ready w =
      let w₁ = servers.wake_status_server (servers.request_status_shutdown w) in
      let w₂ = tell_control control_ready w₁ in
      let (r, w₃) = servers.join_control w₂ in let (r', w₄) = servers.join_status w₃ in w₄

  abbrev ready_after : ServerStartupKind → Bool → Bool
  ready_after control control_ready = true
  ready_after status control_ready = control_ready

  -- By the number of results still awaited; the channel's messages end when both threads are gone.
  unfoldable pub wait : ℕ → List ServerStartupResult → Bool → W → Result (Unit {0}) String × W
  unfolding cleanup_failed_server_startup
  wait zero messages control_ready w = (ok tt, w)
  wait (suc left) [] control_ready w = (
    err "Wardoff could not confirm that both named-pipe servers claimed their initial instances.",
    cleanup_failed_server_startup control_ready w,
  )
  wait (suc left) (message ∷ messages) control_ready w =
      let rest = wait left messages (ready_after message.kind control_ready) w in
      elim message.result [
        | ok _ ↦ rest
        | err error ↦ (err error, cleanup_failed_server_startup control_ready w)
      ]

  unfoldable pub wait_for_server_startup :
      List ServerStartupResult → W → Result (Unit {0}) String × W
  unfolding wait
  wait_for_server_startup messages w = wait 2 messages false w

  -- `IpcServer::start` from the handshake on.
  unfoldable pub finish_start :
      String → String → Result (Unit {0}) String × Env W → Attempt W IpcServer
  finish_start control_pipe_path status_pipe_path (err error, env) = (err error, env)
  finish_start control_pipe_path status_pipe_path (ok _, env) = (
    ok running,
    log_event "status_server_started" ipc
        (format ("Wardoff started its read-only status pipe on " ∷ status_pipe_path ∷ "." ∷ []))
        true
        (log_event "ipc_server_started" ipc
          (format
            ("Wardoff started its named-pipe control server on " ∷ control_pipe_path ∷ "." ∷ []))
          true env),
  )

  unfoldable pub start_after_spawn :
      String → String → List ServerStartupResult → Env W → Attempt W IpcServer
  unfolding wait_for_server_startup finish_start
  start_after_spawn control_pipe_path status_pipe_path messages env =
      finish_start control_pipe_path status_pipe_path
        (on_world (wait_for_server_startup messages) env)

  unfoldable pub begin_shutdown : W → W
  begin_shutdown w = servers.wake_status_server (servers.request_status_shutdown w)

  unfoldable pub join_status_thread : IpcServer → W → Result (Unit {0}) String × IpcServer × W
  join_status_thread server w =
      let (r, w') = servers.join_status w in
      let server' = record server { status_join_handle = false } in
      if server.status_join_handle
      then elim r [
        | ok _ ↦ (ok tt, server', w')
        | err _ ↦ (err "Wardoff status server thread panicked during shutdown.", server', w')
      ]
      else (ok tt, server, w)

  unfoldable pub join_threads : IpcServer → W → Result (Unit {0}) String × IpcServer × W
  unfolding join_status_thread
  join_threads server w =
      let (r, w') = servers.join_control w in
      let server' = record server { control_join_handle = false } in
      if server.control_join_handle
      then elim r [
        | ok _ ↦ join_status_thread server' w'
        | err _ ↦ (err "Wardoff IPC server thread panicked during shutdown.", server', w')
      ]
      else join_status_thread server w

  unfoldable pub after_answer :
      Result (Unit {0}) String → IpcServer → W → Result (Unit {0}) String × IpcServer × W
  unfolding join_threads
  after_answer (ok _) server w = join_threads server w
  after_answer (err error) server w = (err error, server, w)

  unfoldable pub shutdown : IpcServer → W → Result (Unit {0}) String × IpcServer × W
  unfolding begin_shutdown check_answer after_answer
  shutdown server w =
      let (answer, w') = servers.send_shutdown_server (begin_shutdown w) in
      if not server.control_join_handle && not server.status_join_handle
      then (ok tt, server, w)
      else after_answer (check_answer answer) server w'
