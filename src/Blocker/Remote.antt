-- ===== src/Blocker/Remote.antt =====
-- Layer 4, src/blocker/remote.rs: a worker thread that aborts pending shutdowns. The thread is a
-- phase and a flag for the stop message; `worker_step` is its next turn, which the scheduler may
-- place between any two calls of the controller.
pub mod Polling
use wardoff.Prelude.{
  Bool, true, false, Option, none, some, String, Result, ok, err, format, List, [], ◌∷◌,
  if◌then◌else◌, is_some,
}
use wardoff.Logger.Journal.{Env, remote, log_event, record_blocked_event}
use wardoff.Blocker.Windows.{Windows}
use wardoff.Blocker.Abort.{
  ShutdownAbortOutcome, aborted, no_shutdown_pending, abort_denied, abort_failed,
  abort_pending_shutdown,
}

pub data Phase : Type 0 where
  starting polling finished : Phase

pub record RemoteShutdownWorker : Type 0 where
  pub phase : Phase
  pub stop_queued : Bool

-- The worker ends before its `join` returns, so it lives exactly as long as the field.
pub record RemoteShutdownBlocker : Type 0 where
  pub worker : Option RemoteShutdownWorker
  pub active_state : Bool

unfoldable pub default : RemoteShutdownBlocker
default = record { worker = none; active_state = false }

unfoldable pub is_active : RemoteShutdownBlocker → Bool
is_active b = b.active_state

abbrev intercepted_message : String
intercepted_message =
    "Layer 4 called AbortSystemShutdownW(None) and aborted a pending remote shutdown."

abbrev enabled_message : String
enabled_message = "Layer 4 started polling AbortSystemShutdownW(None) every 900 ms."

abbrev disabled_message : String
disabled_message = "Layer 4 stopped remote shutdown polling as Block mode ended."

denied_message : String → String
denied_message details = format (
    "Layer 4 could not call AbortSystemShutdownW(None) because the required shutdown privilege is missing: "
    ∷ details ∷ [])

failed_message : String → String
failed_message details = format (
    "Layer 4 polling stopped after AbortSystemShutdownW(None) failed unexpectedly: " ∷ details ∷ [])

spawn_error : String → String
spawn_error error = format ("Layer 4 could not start its polling thread: " ∷ error ∷ [])

module _ {W : Type 0} where
  unfoldable pub report : ShutdownAbortOutcome → Env W → Bool × Env W
  unfolding denied_message failed_message
  report aborted env = (
    true,
    log_event "remote_shutdown_intercepted" remote intercepted_message true
        (record_blocked_event env),
  )
  report no_shutdown_pending env = (true, env)
  report (abort_denied details) env =
      (false, log_event "remote_layer_enabled" remote (denied_message details) false env)
  report (abort_failed details) env =
      (false, log_event "remote_layer_disabled" remote (failed_message details) false env)

module _ {W : Type 0} (sys : Windows W) where
  unfoldable pub poll_remote_shutdown : Env W → Bool × Env W
  unfolding report
  poll_remote_shutdown env =
      let (outcome, w) = abort_pending_shutdown sys env.world in
      report outcome (record env { world = w })

  start : Env W → RemoteShutdownWorker → RemoteShutdownBlocker → RemoteShutdownBlocker × Env W
  unfolding poll_remote_shutdown
  start env worker b =
      let (alive, env') = poll_remote_shutdown env in
      if alive
      then (
        record { worker = some (record worker { phase = polling }); active_state = true },
        log_event "remote_layer_enabled" remote enabled_message true env',
      )
      else (record b { worker = some (record worker { phase = finished }) }, env')

  -- `recv_timeout`: a queued stop message ends the loop, a timeout polls once more.
  wait : Bool → Env W → RemoteShutdownWorker → RemoteShutdownBlocker → RemoteShutdownBlocker × Env W
  unfolding poll_remote_shutdown
  wait true env worker b = (
    record { worker = some (record worker { phase = finished }); active_state = false },
    log_event "remote_layer_disabled" remote disabled_message true env,
  )
  wait false env worker b =
      let (alive, env') = poll_remote_shutdown env in
      if alive then (b, env') else (
        record { worker = some (record worker { phase = finished }); active_state = false },
        env',
      )

  turn :
      Phase → Env W → RemoteShutdownWorker → RemoteShutdownBlocker → RemoteShutdownBlocker × Env W
  unfolding start wait
  turn starting env worker b = start env worker b
  turn polling env worker b = wait worker.stop_queued env worker b
  turn finished env worker b = (b, env)

  -- One turn of `run_worker`.
  unfoldable pub worker_step : RemoteShutdownBlocker → Env W → RemoteShutdownBlocker × Env W
  unfolding turn
  worker_step b env = elim b.worker [
    | none ↦ (b, env)
    | some worker ↦ turn worker.phase env worker b
  ]

  unfoldable pub activate :
      RemoteShutdownBlocker → Env W → Result (Unit {0}) String × RemoteShutdownBlocker × Env W
  unfolding spawn_error
  activate b env =
      let (spawned, w) = sys.spawn_thread "wardoff-layer4-remote-shutdown" env.world in
      let started : Result (Unit {0}) String × RemoteShutdownBlocker × Env W = elim spawned [
        | err error ↦ (err (spawn_error error), b, record env { world = w })
        | ok _ ↦ (
          ok tt,
          record b { worker = some (record { phase = starting; stop_queued = false }) },
          record env { world = w },
        )
      ] in
      if is_some b.worker then (ok tt, b, env) else started

  unfoldable pub begin_forced_shutdown_cleanup : RemoteShutdownBlocker → RemoteShutdownBlocker
  begin_forced_shutdown_cleanup b = elim b.worker [
    | none ↦ b
    | some worker ↦ record {
      worker = some (record worker { stop_queued = true });
      active_state = false;
    }
  ]

  -- `join` waits for the rest of the thread's turns: two are enough, by
  -- `Remote.Polling.worker_step-finishes`. The thread has no code that panics.
  unfoldable pub deactivate : RemoteShutdownBlocker → Env W → RemoteShutdownBlocker × Env W
  unfolding begin_forced_shutdown_cleanup
  deactivate b env =
      let stopping = begin_forced_shutdown_cleanup b in
      let (b', env') = worker_step stopping env in
      let (b'', env'') = worker_step b' env' in (record b'' { worker = none }, env'')
