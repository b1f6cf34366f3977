-- ===== src/Blocker/Abort.antt =====
-- `enable_shutdown_privilege` of src/blocker/mod.rs and src/blocker/abort.rs.
use wardoff.Prelude.{ℕ, Bool, true, false, String, ok, err, if◌then◌else◌}
use wardoff.Blocker.Windows.{
  Windows, WinResult, Code, e_accessdenied, error_access_denied, error_not_all_assigned,
  error_no_shutdown_in_progress,
}

pub data ShutdownAbortCapability : Type 0 where
  available : ShutdownAbortCapability
  access_denied failed : String → ShutdownAbortCapability

pub data ShutdownAbortOutcome : Type 0 where
  aborted no_shutdown_pending : ShutdownAbortOutcome
  abort_denied abort_failed : String → ShutdownAbortOutcome

abbrev pub is_not_all_assigned : Code → Bool
is_not_all_assigned error_not_all_assigned = true
is_not_all_assigned _ = false

unfoldable pub is_access_denied_error : Code → Bool
is_access_denied_error e_accessdenied = true
is_access_denied_error error_access_denied = true
is_access_denied_error error_not_all_assigned = true
is_access_denied_error _ = false

unfoldable pub is_no_shutdown_in_progress_error : Code → Bool
is_no_shutdown_in_progress_error error_no_shutdown_in_progress = true
is_no_shutdown_in_progress_error _ = false

module _ {W : Type 0} (sys : Windows W) where
  -- After `AdjustTokenPrivileges`: success with `ERROR_NOT_ALL_ASSIGNED` is a failure.
  check_assigned : WinResult (Unit {0}) → W → WinResult (Unit {0})
  check_assigned (err e) w = err e
  check_assigned (ok _) w =
      if is_not_all_assigned (sys.last_error w).code then err (sys.last_error w) else ok tt

  -- The token is closed on every path once it was opened.
  with_token : WinResult ℕ → W → WinResult (Unit {0}) × W
  unfolding check_assigned
  with_token (err e) w = (err e, w)
  with_token (ok token) w =
      let (found, w') = sys.lookup_privilege_value w in
      elim found [
        | err e ↦ (err e, sys.close_handle token w')
        | ok luid ↦
            let (adjusted, w'') = sys.adjust_token_privileges token luid w' in
            (check_assigned adjusted w'', sys.close_handle token w'')
      ]

  unfoldable pub enable_shutdown_privilege : W → WinResult (Unit {0}) × W
  unfolding with_token
  enable_shutdown_privilege w = let (opened, w') = sys.open_process_token w in with_token opened w'

  capability : WinResult (Unit {0}) → ShutdownAbortCapability
  capability (ok _) = available
  capability (err e) = if is_access_denied_error e.code then access_denied e.text else failed e.text

  unfoldable pub preflight_shutdown_abort_capability : W → ShutdownAbortCapability × W
  unfolding capability
  preflight_shutdown_abort_capability w =
      let (r, w') = enable_shutdown_privilege w in (capability r, w')

  abort_outcome : WinResult (Unit {0}) → ShutdownAbortOutcome
  abort_outcome (ok _) = aborted
  abort_outcome (err e) =
      if is_no_shutdown_in_progress_error e.code
      then no_shutdown_pending
      else if is_access_denied_error e.code
      then abort_denied e.text
      else abort_failed e.text

  unfoldable pub abort_pending_shutdown : W → ShutdownAbortOutcome × W
  unfolding abort_outcome
  abort_pending_shutdown w =
      let (c, w') = preflight_shutdown_abort_capability w in
      elim c [
        | access_denied details ↦ (abort_denied details, w')
        | failed details ↦ (abort_failed details, w')
        | available ↦ let (r, w'') = sys.abort_system_shutdown w' in (abort_outcome r, w'')
      ]
