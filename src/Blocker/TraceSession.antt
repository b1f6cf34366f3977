-- ===== src/Blocker/TraceSession.antt =====
-- The event tracing session of src/blocker/local.rs: how it is started, consumed, closed and stopped.
use wardoff.Prelude.{
  ℕ, Bool, true, false, Option, none, some, String, Result, ok, err, format, [], ◌∷◌, if◌then◌else◌,
}
use wardoff.Blocker.Windows.{
  Windows, Status, error_success, error_wmi_instance_not_found, access_denied, privilege_not_held,
  not_supported, already_exists,
}

abbrev is_success : Status → Bool
is_success error_success = true
is_success _ = false

-- The two statuses that stopping a session accepts.
unfoldable pub is_stopped : Status → Bool
is_stopped error_success = true
is_stopped error_wmi_instance_not_found = true
is_stopped _ = false

module _ {W : Type 0} (sys : Windows W) where
  unfoldable pub win32_error_details : Status → String
  win32_error_details status =
      format (sys.status_text status ∷ " (code " ∷ sys.status_code status ∷ ")" ∷ [])

  start_trace_cause : Status → String
  start_trace_cause access_denied =
      "Layer 2 could not start ETW process monitoring because this process lacks the privileges Windows requires: "
  start_trace_cause privilege_not_held =
      "Layer 2 could not start ETW process monitoring because this process lacks the privileges Windows requires: "
  start_trace_cause not_supported =
      "Layer 2 ETW process monitoring is not available on this Windows configuration: "
  start_trace_cause already_exists =
      "Layer 2 found an unexpected existing ETW session with the same name and will stay inactive: "
  start_trace_cause _ =
      "Layer 2 could not start its ETW process monitoring session and will stay inactive: "

  format_start_trace_error : Status → String
  unfolding start_trace_cause win32_error_details
  format_start_trace_error status =
      format (start_trace_cause status ∷ win32_error_details status ∷ [])

  unfoldable pub stop_trace_session : String → W → Result (Unit {0}) String × W
  unfolding win32_error_details
  stop_trace_session name w =
      let (status, w') = sys.stop_trace name w in
      (
        if is_stopped status
            then ok tt
            else err (
                format (
                  "Windows returned "
                  ∷ win32_error_details status
                  ∷ " while stopping the Layer 2 ETW session."
                  ∷ [])),
        w',
      )

  open_consumer : String → W → Result ℕ String × W
  unfolding stop_trace_session
  open_consumer name w =
      let (opened, w') = sys.open_trace name w in
      elim opened [
        | some handle ↦ (ok handle, w')
        | none ↦ (
          err (
              format (
                "Layer 2 could not open its real-time ETW consumer: "
                ∷ (sys.last_error w').text
                ∷ [])),
          (stop_trace_session name w').1,
        )
      ]

  -- `LocalTraceSubscription::start`: a step that fails stops the session again.
  unfoldable pub start_subscription : String → W → Result ℕ String × W
  unfolding open_consumer stop_trace_session format_start_trace_error win32_error_details
  start_subscription name w =
      let (started, w') = sys.start_trace name w in
      let (enabled, w'') = sys.enable_trace w' in
      if is_success started
      then if is_success enabled then open_consumer name w'' else (
        err (
            format (
              "Layer 2 could not enable the Microsoft-Windows-Kernel-Process provider for ETW monitoring: "
              ∷ win32_error_details enabled
              ∷ [])),
        (stop_trace_session name w'').1,
      )
      else (err (format_start_trace_error started), w')

  -- `SharedProcessTraceHandle::close`, whose slot the caller empties.
  unfoldable pub close_slot : Option ℕ → W → Result (Unit {0}) String × W
  unfolding win32_error_details
  close_slot none w = (ok tt, w)
  close_slot (some handle) w =
      let (status, w') = sys.close_trace handle w in
      (
        if is_stopped status
            then ok tt
            else err (
                format (
                  "Windows returned "
                  ∷ win32_error_details status
                  ∷ " while closing the Layer 2 ETW consumer handle."
                  ∷ [])),
        w',
      )

  -- `LocalTraceSubscription::shutdown`, after the thread could not be started.
  unfoldable pub shutdown_subscription : String → ℕ → W → W
  unfolding stop_trace_session close_slot
  shutdown_subscription name handle w = (stop_trace_session name (close_slot (some handle) w).1).1
