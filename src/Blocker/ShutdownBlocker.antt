-- ===== src/Blocker/ShutdownBlocker.antt =====
-- Layer 1, src/blocker/shutdown.rs: the shutdown block reason and the window messages. The windows
-- exist while the blocker does, so their creation is not modelled.
use wardoff.Prelude.{
  ℕ, ◌/◌, ◌%◌, ◌^◌, [], ◌∷◌, Bool, true, false, not, ◌&&◌, String, ok, err, format, ◌==◌,
  if◌then◌else◌,
}
use wardoff.Logger.Journal.{Env, shutdown, log_event, record_blocked_event}
use wardoff.Blocker.Windows.{Windows, WinResult}

pub data PowerBroadcastEvent : Type 0 where
  suspend resume : PowerBroadcastEvent

-- `reason_registered` is the blocker's field; the other two are the statics `BLOCKER_ACTIVE` and
-- `END_SESSION_CLEANUP_STARTED`, which the window procedure reads and writes.
pub record ShutdownBlocker : Type 0 where
  pub reason_registered : Bool
  pub blocker_active : Bool
  pub cleanup_started : Bool

unfoldable pub new : ShutdownBlocker
new = record { reason_registered = false; blocker_active = false; cleanup_started = false }

unfoldable pub is_active : ShutdownBlocker → Bool
is_active b = b.reason_registered

abbrev enabled_message : String
enabled_message = "Layer 1 registered its shutdown block reason and will reject WM_QUERYENDSESSION."

abbrev disabled_message : String
disabled_message = "Layer 1 removed its shutdown block reason and returned to Allow mode."

blocked_message : String → String
blocked_message requested_action = format (
    "Layer 1 blocked a Windows " ∷ requested_action
    ∷ " request through WM_QUERYENDSESSION and returned FALSE." ∷ [])

-- `ENDSESSION_LOGOFF` is the top bit of the 32-bit flags.
unfoldable pub is_logoff_query : ℕ → Bool
is_logoff_query lparam = not ((lparam / 2 ^ 31) % 2 == 0)

unfoldable pub should_run_end_session_cleanup : ℕ → Bool → Bool
should_run_end_session_cleanup wparam shutdown_in_progress =
    not (wparam == 0) && shutdown_in_progress

module _ {W : Type 0} where
  -- The answer to `WM_QUERYENDSESSION`: 0 refuses, 1 agrees.
  unfoldable pub handle_query_end_session : ShutdownBlocker → ℕ → Env W → ℕ × Env W
  unfolding blocked_message is_logoff_query
  handle_query_end_session b lparam env =
      if b.blocker_active
      then (
        0,
        log_event "shutdown_blocked" shutdown
            (blocked_message (if is_logoff_query lparam then "sign-out" else "shutdown")) true
            (record_blocked_event env),
      )
      else (1, env)

module _ {W : Type 0} (sys : Windows W) where
  register :
      WinResult (Unit {0})
      → ShutdownBlocker
      → Env W
      → WinResult (Unit {0}) × ShutdownBlocker × Env W
  register (err e) b env = (err e, b, env)
  register (ok _) b env = (
    ok tt,
    record b { reason_registered = true; blocker_active = true },
    log_event "shutdown_layer_enabled" shutdown enabled_message true env,
  )

  unfoldable pub activate : ShutdownBlocker → Env W → WinResult (Unit {0}) × ShutdownBlocker × Env W
  unfolding register
  activate b env =
      let (r, w) = sys.shutdown_block_reason_create env.world in
      if b.reason_registered then (ok tt, b, env) else register r b (record env { world = w })

  unregister :
      WinResult (Unit {0})
      → ShutdownBlocker
      → Env W
      → WinResult (Unit {0}) × ShutdownBlocker × Env W
  unregister (err e) b env = (err e, b, env)
  unregister (ok _) b env = (
    ok tt,
    record b { reason_registered = false; blocker_active = false },
    log_event "shutdown_layer_disabled" shutdown disabled_message true env,
  )

  unfoldable pub deactivate :
      ShutdownBlocker → Env W → WinResult (Unit {0}) × ShutdownBlocker × Env W
  unfolding unregister
  deactivate b env =
      let (r, w) = sys.shutdown_block_reason_destroy env.world in
      if b.reason_registered
      then unregister r b (record env { world = w })
      else (ok tt, record b { blocker_active = false }, env)

  -- `WM_ENDSESSION`. The result says whether the cleanup callback runs; the caller runs it, if one
  -- is registered. `shutdown_in_progress` is what `GetSystemMetrics` answers.
  unfoldable pub handle_end_session :
      ShutdownBlocker → ℕ → Bool → Env W → Bool × ShutdownBlocker × Env W
  unfolding should_run_end_session_cleanup
  handle_end_session b wparam shutdown_in_progress env =
      let (r, w) = sys.shutdown_block_reason_destroy env.world in
      if should_run_end_session_cleanup wparam shutdown_in_progress
      then (
        not b.cleanup_started,
        record b { blocker_active = false; cleanup_started = true },
        record env { world = w },
      )
      else (false, b, env)
