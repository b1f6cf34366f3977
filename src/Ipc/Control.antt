-- ===== src/Ipc/Control.antt =====
-- The control pipe's server in src/ipc.rs: its start, its loop, and the reply to each client.
pub mod Replies
use wardoff.Prelude.{
  and_then, ℕ, zero, suc, Bool, true, false, Option, none, some, String, Result, ok, err, map_err,
  List, [], ◌∷◌, format, if◌then◌else◌,
}
use wardoff.Logger.Journal.{Env, Attempt, ipc, log_event, on_world}
use wardoff.Policy.{IpcRequest, shutdown_server}
use wardoff.Ipc.{IpcResponse}
use wardoff.Ipc.Frame.{Decoder, Arrival, read_request_until_deadline}
use wardoff.Ipc.Client.{newline}
use wardoff.Ipc.Connect.{Pipes, claim_initial_pipe_instance}

-- What the server calls: Win32 on a pipe, the reads up to the deadline, `serde_json`, and the
-- channel to the application's thread, which answers one request (`none` when it is gone).
pub record ControlCalls (W : Type 0) : Type 0 where
  pub current_control_pipe_path : W → Result String String × W
  pub build_security : String → W → Result (Unit {0}) String × W
  pub create_instance : W → Result ℕ String × W
  pub connect_client : ℕ → W → Result (Unit {0}) String × W
  pub set_blocking : ℕ → Bool → W → Result (Unit {0}) String × W
  pub reads : ℕ → W → List Arrival × W
  pub to_json : IpcResponse → W → Result (List ℕ) String × W
  pub write_all : ℕ → List ℕ → W → Result (Unit {0}) String × W
  pub flush : ℕ → W → Result (Unit {0}) String × W
  pub send_pending : IpcRequest → W → Bool × W
  pub post_wake : W → Result (Unit {0}) String × W
  pub recv : W → Option IpcResponse × W

abbrev pub explained : {W A : Type 0} → String → (W → Result A String × W) → Env W → Attempt W A
explained what call env =
    let (r, env') = on_world call env in
    (map_err (λ error. format (what ∷ ": " ∷ error ∷ [])) r, env')

abbrev shutting_down : IpcResponse
shutting_down = IpcResponse.error "Wardoff is shutting down."

module _ {W : Type 0} (calls : ControlCalls W) where
  unfoldable pub write_response : ℕ → IpcResponse → Env W → Attempt W (Unit {0})
  write_response handle response env =
      and_then (explained "Wardoff could not serialize an IPC reply" (calls.to_json response) env)
        λ payload env₁.
          and_then
            (explained "Wardoff could not write an IPC reply" (calls.write_all handle payload) env₁)
            λ _ env₂.
              and_then
                (explained "Wardoff could not finish its IPC reply" (calls.write_all handle newline)
                  env₂)
                λ _ env₃.
                  explained "Wardoff could not flush its IPC reply" (calls.flush handle) env₃

  -- `let _ = write_response(..)`, and the warning that is not kept.
  unfoldable pub reply : ℕ → IpcResponse → Env W → Env W
  unfolding write_response
  reply handle response env = (write_response handle response env).1

  unfoldable pub wake_ui_thread : Env W → Attempt W (Unit {0})
  wake_ui_thread env = explained "Wardoff could not wake its UI thread for IPC" calls.post_wake env

  -- The pipe stays nonblocking when the request is refused.
  unfoldable pub restore_mode : ℕ → Result IpcRequest String × Env W → Attempt W IpcRequest
  restore_mode handle (err error, env) = (err error, env)
  restore_mode handle (ok request, env) =
      and_then
        (explained "Wardoff could not restore its IPC reply mode" (calls.set_blocking handle true)
          env)
        λ _ env'. (ok request, env')

  unfoldable pub read_request : Decoder → ℕ → Env W → Attempt W IpcRequest
  unfolding restore_mode
  read_request decoder handle env =
      and_then
        (explained "Wardoff could not bound its IPC request read" (calls.set_blocking handle false)
          env)
        λ _ env₁.
          let (arrivals, env₂) = on_world (calls.reads handle) env₁ in
          restore_mode handle (read_request_until_deadline decoder arrivals [], env₂)

  unfoldable pub deliver : ℕ → Option IpcResponse × Env W → Bool × Env W
  unfolding reply
  deliver handle (some response, env) = (false, reply handle response env)
  deliver handle (none, env) = (true, reply handle shutting_down env)

  unfoldable pub after_wake : ℕ → Attempt W (Unit {0}) → Bool × Env W
  unfolding deliver reply
  after_wake handle (ok _, env) = deliver handle (on_world calls.recv env)
  after_wake handle (err error, env) = (
    false,
    log_event "ipc_request_rejected" ipc
        (format ("Wardoff could not wake its UI thread for IPC: " ∷ error ∷ [])) false
        (reply handle (IpcResponse.error error) env),
  )

  unfoldable pub after_send : ℕ → Bool × Env W → Bool × Env W
  unfolding after_wake wake_ui_thread reply
  after_send handle (true, env) = after_wake handle (wake_ui_thread env)
  after_send handle (false, env) = (true, reply handle shutting_down env)

  -- One client, to the end of the loop's body; `true` is the `break`.
  unfoldable pub answer : ℕ → Attempt W IpcRequest → Bool × Env W
  unfolding after_send reply
  answer handle (ok shutdown_server, env) = (true, reply handle IpcResponse.ok env)
  answer handle (ok request, env) = after_send handle (on_world (calls.send_pending request) env)
  answer handle (err error, env) = (
    false,
    log_event "ipc_request_rejected" ipc (format ("Wardoff rejected an IPC request: " ∷ error ∷ []))
        false (reply handle (IpcResponse.error error) env),
  )

  unfoldable pub connect_pipe_client : String → ℕ → Env W → Attempt W ℕ
  connect_pipe_client path handle env =
      and_then
        (explained (format ("Wardoff could not accept a client on " ∷ path ∷ []))
          (calls.connect_client handle) env)
        λ _ env'. (ok handle, env')

  -- The client of the first instance, or `accept_control_client`.
  unfoldable pub next_client : String → Option ℕ → Env W → Attempt W ℕ
  unfolding connect_pipe_client
  next_client path (some handle) env = connect_pipe_client path handle env
  next_client path none env =
      and_then (on_world calls.create_instance env)
        λ handle env'. connect_pipe_client path handle env'

  unfoldable pub serve : Decoder → Attempt W ℕ → Bool × Env W
  unfolding answer read_request
  serve decoder (ok handle, env) = answer handle (read_request decoder handle env)
  serve decoder (err error, env) = (
    true,
    log_event "ipc_server_stopped" ipc
        (format ("Wardoff stopped its named-pipe control server after an IPC error: " ∷ error ∷ []))
        false env,
  )

  unfoldable pub log_stopped : String → Env W → Env W
  log_stopped path env =
      log_event "ipc_server_stopped" ipc
        (format ("Wardoff stopped its named-pipe control server on " ∷ path ∷ "." ∷ [])) true env

  -- The loop, for a number of clients; whether it has ended.
  unfoldable pub server_loop : Decoder → String → ℕ → Option ℕ → Env W → Bool × Env W
  unfolding next_client serve log_stopped
  server_loop decoder path zero initial env = (false, env)
  server_loop decoder path (suc clients) initial env =
      let (stop, env') = serve decoder (next_client path initial env) in
      let rest = server_loop decoder path clients none env' in
      if stop then (true, log_stopped path env') else rest

  -- What the server reports before its loop, with the pipe it claimed and the path.
  unfoldable pub start_server : Pipes W → Env W → Attempt W (String × ℕ)
  start_server pipes env = stopped_before_startup (
      and_then (on_world calls.current_control_pipe_path env) λ path env₁.
        and_then (on_world (calls.build_security path) env₁) λ _ env₂.
          and_then (on_world (claim_initial_pipe_instance pipes path) env₂)
            λ handle env₃. (ok (path, handle), env₃))
    where
      stopped_before_startup : Attempt W (String × ℕ) → Attempt W (String × ℕ)
      stopped_before_startup (ok claimed, env) = (ok claimed, env)
      stopped_before_startup (err error, env) =
          let message =
            format
              ("Wardoff stopped its named-pipe control server before startup: " ∷ error ∷ []) in
          (err message, log_event "ipc_server_stopped" ipc message false env)
