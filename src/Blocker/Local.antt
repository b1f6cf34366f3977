-- ===== src/Blocker/Local.antt =====
-- Layer 2, src/blocker/local.rs: the event tracing session that watches for shutdown.exe, and its
-- worker thread, again as a phase with `worker_step`. No lock is ever poisoned, since no code that
-- holds one panics; a failure to close a handle is only printed.
pub mod Events
pub mod Lifecycle
pub mod Utf16
use wardoff.Prelude.{
  ℕ, Bool, true, false, Option, none, some, String, Result, ok, err, format, List, [], ◌∷◌, is_some,
  if◌then◌else◌,
}
use wardoff.Logger.Journal.{Env, local, log_event}
use wardoff.Blocker.Windows.{Windows, Status}
use wardoff.Blocker.TraceSession.{
  is_stopped, win32_error_details, stop_trace_session, close_slot, start_subscription,
  shutdown_subscription,
}
use wardoff.Blocker.Abort.{
  ShutdownAbortCapability, available, failed, preflight_shutdown_abort_capability,
}
use wardoff.Blocker.Abort

pub data Phase : Type 0 where
  starting finished : Phase
  processing : ℕ → Phase

-- `processing` holds the trace handle that `ProcessTrace` was called with.
-- `process_handle` is the slot that controller and worker share.
pub record LocalShutdownWorker : Type 0 where
  pub session_name : String
  pub process_handle : Option ℕ
  pub phase : Phase

pub record LocalShutdownBlocker : Type 0 where
  pub worker : Option LocalShutdownWorker
  pub active_state : Bool

unfoldable pub default : LocalShutdownBlocker
default = record { worker = none; active_state = false }

unfoldable pub is_active : LocalShutdownBlocker → Bool
is_active b = b.active_state

abbrev log_local : {W : Type 0} → String → String → Bool → Env W → Env W
log_local event action success env = log_event event local action success env

pub unavailable_message : ShutdownAbortCapability → String
unavailable_message available = ""
unavailable_message (Abort.access_denied details) = format (
    "Layer 2 local shutdown protection will stay inactive because this process lacks the shutdown-abort privilege required to cancel shutdown.exe launches: "
    ∷ details ∷ [])
unavailable_message (failed details) = format (
    "Layer 2 local shutdown protection will stay inactive because Wardoff could not verify the shutdown-abort capability required before starting ETW monitoring: "
    ∷ details ∷ [])

module _ {W : Type 0} (sys : Windows W) where
  finish : Option ℕ → LocalShutdownWorker → Bool → LocalShutdownBlocker
  finish slot worker active = record {
    worker = some (record worker { phase = finished; process_handle = slot });
    active_state = active;
  }

  start :
      Option ℕ → LocalShutdownWorker → LocalShutdownBlocker → Env W → LocalShutdownBlocker × Env W
  unfolding stop_trace_session finish
  start none worker b env =
      let message : String = "Layer 2 ETW consumer handle was already closed." in
      let env' = log_local "local_layer_disabled" message false env in
      (
        finish none worker b.active_state,
        record env' { world = (stop_trace_session sys worker.session_name env'.world).1 },
      )
  start (some handle) worker b env = (
    record { worker = some (record worker { phase = processing handle }); active_state = true },
    log_local "local_layer_enabled"
        "Layer 2 confirmed shutdown-abort capability, started ETW process-start monitoring for local shutdown.exe launches, and will attempt AbortSystemShutdownW(None) when it detects one."
        true env,
  )

  log_trace_end : Status → Env W → Env W
  unfolding win32_error_details
  log_trace_end status env =
      if is_stopped status
      then log_local "local_layer_disabled" "Layer 2 stopped ETW monitoring as Block mode ended."
          true env
      else log_local "local_layer_disabled"
          (format (
            "Layer 2 ETW monitoring stopped unexpectedly after ProcessTrace returned "
            ∷ win32_error_details sys status
            ∷ "."
            ∷ []))
          false env

  -- `ProcessTrace` returns; the handle is closed, the session stopped, and the thread ends.
  end_trace : ℕ → LocalShutdownWorker → Env W → LocalShutdownBlocker × Env W
  unfolding log_trace_end close_slot stop_trace_session finish
  end_trace handle worker env =
      let (status, w) = sys.process_trace handle env.world in
      let (closed, w') = close_slot sys worker.process_handle w in
      let (stopped, w'') = stop_trace_session sys worker.session_name w' in
      (finish none worker false, log_trace_end status (record env { world = w'' }))

  turn : Phase → LocalShutdownWorker → LocalShutdownBlocker → Env W → LocalShutdownBlocker × Env W
  unfolding start end_trace
  turn starting worker b env = start worker.process_handle worker b env
  turn (processing handle) worker b env = end_trace handle worker env
  turn finished worker b env = (b, env)

  -- One turn of `run_worker`.
  unfoldable pub worker_step : LocalShutdownBlocker → Env W → LocalShutdownBlocker × Env W
  unfolding turn
  worker_step b env = elim b.worker [
    | none ↦ (b, env)
    | some worker ↦ turn worker.phase worker b env
  ]

abbrev has_finished : Phase → Bool
has_finished finished = true
has_finished _ = false

unfoldable pub cleanup_finished_worker : LocalShutdownBlocker → LocalShutdownBlocker
cleanup_finished_worker b = elim b.worker [
  | none ↦ b
  | some worker ↦ if has_finished worker.phase then record b { worker = none } else b
]

module _ {W : Type 0} (sys : Windows W) where
  spawn_worker :
      String
      → ℕ
      → LocalShutdownBlocker
      → Env W
      → Result (Unit {0}) String × LocalShutdownBlocker × Env W
  unfolding shutdown_subscription
  spawn_worker name handle b env =
      let (spawned, w) = sys.spawn_thread "wardoff-layer2-local-shutdown" env.world in
      elim spawned [
        | ok _ ↦ (
          ok tt,
          record b {
            worker =
                some
                  (record { session_name = name; process_handle = some handle; phase = starting });
          },
          record env { world = w },
        )
        | err error ↦ (
          err (format ("Layer 2 could not start its ETW worker thread: " ∷ error ∷ [])),
          b,
          record env { world = shutdown_subscription sys name handle w },
        )
      ]

  subscribe : LocalShutdownBlocker → Env W → Result (Unit {0}) String × LocalShutdownBlocker × Env W
  unfolding spawn_worker
  subscribe b env =
      let name = sys.session_name env.world in
      let (subscribed, w) = start_subscription sys name env.world in
      let env' = record env { world = w } in
      elim subscribed [
        | ok handle ↦ spawn_worker name handle b env'
        | err message ↦ (ok tt, b, log_local "local_layer_unavailable" message false env')
      ]

  if_capable :
      ShutdownAbortCapability
      → LocalShutdownBlocker
      → Env W
      → Result (Unit {0}) String × LocalShutdownBlocker × Env W
  unfolding subscribe
  if_capable available b env = subscribe b env
  if_capable (Abort.access_denied d) b env = (
    ok tt,
    b,
    log_local "local_layer_unavailable" (unavailable_message (Abort.access_denied d)) false env,
  )
  if_capable (failed d) b env =
      (ok tt, b, log_local "local_layer_unavailable" (unavailable_message (failed d)) false env)

  unfoldable pub activate :
      LocalShutdownBlocker → Env W → Result (Unit {0}) String × LocalShutdownBlocker × Env W
  unfolding if_capable cleanup_finished_worker
  activate b env =
      let b' = cleanup_finished_worker b in
      let (capability, w) = preflight_shutdown_abort_capability sys env.world in
      if is_some b'.worker
      then (ok tt, b', env)
      else if_capable capability b' (record env { world = w })

  log_failure : String → Result (Unit {0}) String → Env W → Env W
  log_failure context (ok _) env = env
  log_failure context (err error) env =
      log_local "local_layer_disabled" (format (context ∷ error ∷ [])) false env

  -- The session is stopped and the handle closed, so that `ProcessTrace` returns; `join` waits for
  -- the rest of the thread's turns, of which there are two at most.
  stop_worker : LocalShutdownWorker → Env W → LocalShutdownBlocker × Env W
  unfolding log_failure worker_step close_slot
  stop_worker worker env =
      let (stopped, w) = stop_trace_session sys worker.session_name env.world in
      let env₁ =
        log_failure "Layer 2 could not stop its ETW session cleanly: " stopped
          (record env { world = w }) in
      let (closed, w') = close_slot sys worker.process_handle env₁.world in
      let env₂ =
        log_failure "Layer 2 could not close its ETW consumer handle while stopping: " closed
          (record env₁ { world = w' }) in
      let closed_worker = record worker { process_handle = none } in
      let (b', env₃) =
        worker_step sys (record { worker = some closed_worker; active_state = false }) env₂ in
      let (b'', env₄) = worker_step sys b' env₃ in (record b'' { worker = none }, env₄)

  unfoldable pub deactivate : LocalShutdownBlocker → Env W → LocalShutdownBlocker × Env W
  unfolding stop_worker cleanup_finished_worker
  deactivate b env =
      let b' = cleanup_finished_worker b in
      elim b'.worker [ none ↦ (b', env) | some worker ↦ stop_worker worker env ]
