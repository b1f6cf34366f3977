-- ===== src/Launch/Runtime.antt =====
-- The start of a runtime in src/main.rs: elevation, the console, the claim of the instance, and
-- `run_with_cleanup`.
use wardoff.Prelude.{
  ℕ, Bool, true, false, ◌&&◌, Option, none, some, String, Result, ok, err, and_then, on_error,
  format, [], ◌∷◌, if◌then◌else◌,
}
use wardoff.Cli.{RequestedAction}
use wardoff.Policy.{IpcRequest, RuntimeOptions, runtime_options_for, ipc_request_for}
use wardoff.Instance.{
  InstanceClaim, primary, secondary, claim_primary_instance, claim_primary_instance_with_retry,
}
use wardoff.Launch.Console.{
  ConsoleLaunchContext, no_console, owned, inherited, ElevationLaunchResult, launched, cancelled,
  console_launch_context, hide_and_free_console, relaunch_self_detached, relaunch_self_elevated,
}
use wardoff.Launch.{
  Process, Outcome, forward_request_to_primary, elevated_relaunch_mutex_retry_attempts,
  elevated_relaunch_mutex_retry_delay,
}

pub data DefaultLaunchDisposition : Type 0 where
  bootstrap : ℕ → DefaultLaunchDisposition
  exit : ℕ → DefaultLaunchDisposition

pub data RuntimeConsoleDisposition : Type 0 where
  proceed : RuntimeConsoleDisposition
  leave : ℕ → RuntimeConsoleDisposition

unreachable_error : String
unreachable_error = "internal error: entered unreachable code"

abbrev pub is_default : RequestedAction → Bool
is_default RequestedAction.default = true
is_default _ = false

-- `run_with_cleanup`, by the results of the loop and the cleanup.
unfoldable pub both_results :
    Result (Unit {0}) String → Result (Unit {0}) String → Result (Unit {0}) String
both_results (ok _) (ok _) = ok tt
both_results (err loop_error) (ok _) = err loop_error
both_results (ok _) (err cleanup_error) = err cleanup_error
both_results (err loop_error) (err cleanup_error) =
    err (format ("runtime loop failed: " ∷ loop_error ∷ "; cleanup failed: " ∷ cleanup_error ∷ []))

unfoldable pub run_with_cleanup :
    {S : Type 0}
    → (S → Result (Unit {0}) String × S)
    → (S → Result (Unit {0}) String × S)
    → S
    → Result (Unit {0}) String × S
unfolding both_results
run_with_cleanup loop_fn cleanup_fn state =
    let (loop_result, state₁) = loop_fn state in
    let (cleanup_result, state₂) = cleanup_fn state₁ in
    (both_results loop_result cleanup_result, state₂)

module _ {W : Type 0} (process : Process W) where
  exit_code_of : ElevationLaunchResult → ℕ
  exit_code_of launched = 0
  exit_code_of cancelled = 1

  -- By the flag of the elevated relaunch and the elevation.
  unfoldable pub settle_elevation : ℕ → Bool → Bool → W → Result DefaultLaunchDisposition String × W
  unfolding exit_code_of
  settle_elevation handle relaunched true w = (ok (bootstrap handle), w)
  settle_elevation handle true false w =
      (err "Wardoff relaunched its default startup path without administrator rights.", w)
  settle_elevation handle false false w =
      and_then (relaunch_self_elevated process.consoles w)
        λ result w'. (ok (exit (exit_code_of result)), w')

  unfoldable pub prepare_default_launch : ℕ → Bool → W → Result DefaultLaunchDisposition String × W
  unfolding settle_elevation
  prepare_default_launch handle internal_elevated_relaunch w =
      and_then
        (on_error
          (λ error. format (
            "Wardoff could not determine whether administrator rights are available before default startup: "
            ∷ error ∷ []))
          (process.is_process_elevated w))
        λ is_elevated w'. settle_elevation handle internal_elevated_relaunch is_elevated w'

  unfoldable pub settle_console :
      Bool → ConsoleLaunchContext → W → Result RuntimeConsoleDisposition String × W
  settle_console internal_detached_runtime no_console w = (ok proceed, w)
  settle_console internal_detached_runtime owned w =
      and_then (hide_and_free_console process.consoles w) λ _ w'. (ok proceed, w')
  settle_console true inherited w = (ok proceed, w)
  settle_console false inherited w =
      and_then (relaunch_self_detached process.consoles w) λ _ w'. (ok (leave 0), w')

  unfoldable pub prepare_runtime_console_launch :
      Bool → W → Result RuntimeConsoleDisposition String × W
  unfolding settle_console
  prepare_runtime_console_launch internal_detached_runtime w =
      and_then (console_launch_context process.consoles w, w)
        λ context w'. settle_console internal_detached_runtime context w'

  unfoldable pub start_runtime : ℕ → Option RuntimeOptions → W → Outcome W
  unfolding unreachable_error
  start_runtime handle none w = (err unreachable_error, w)
  start_runtime handle (some options) w =
      and_then (process.run_primary handle options w) λ _ w'. (ok 0, w')

  unfoldable pub after_console :
      RequestedAction → ℕ → Result RuntimeConsoleDisposition String × W → Outcome W
  unfolding start_runtime
  after_console action handle (ok proceed, w) = start_runtime handle (runtime_options_for action) w
  after_console action handle (ok (leave exit_code), w) = (ok exit_code, w)
  after_console action handle (err error, w) = (err error, w)

  unfoldable pub after_default :
      RequestedAction → Bool → Result DefaultLaunchDisposition String × W → Outcome W
  unfolding after_console prepare_runtime_console_launch
  after_default action internal_detached_runtime (ok (bootstrap handle), w) =
      after_console action handle (prepare_runtime_console_launch internal_detached_runtime w)
  after_default action internal_detached_runtime (ok (exit exit_code), w) = (ok exit_code, w)
  after_default action internal_detached_runtime (err error, w) = (err error, w)

  unfoldable pub handle_primary_runtime_request : RequestedAction → Bool → Bool → ℕ → W → Outcome W
  unfolding after_default prepare_default_launch
  handle_primary_runtime_request action internal_elevated_relaunch internal_detached_runtime handle
        w =
      after_default action internal_detached_runtime (
        if is_default action
        then prepare_default_launch handle internal_elevated_relaunch w
        else (ok (bootstrap handle), w))

  unfoldable pub forward_runtime_request : Option IpcRequest → (ℕ → W → Outcome W) → W → Outcome W
  unfolding forward_request_to_primary unreachable_error
  forward_runtime_request none local_fallback w = (err unreachable_error, w)
  forward_runtime_request (some request) local_fallback w =
      forward_request_to_primary process request local_fallback w

  unfoldable pub settle_runtime_claim :
      RequestedAction → Bool → Bool → Result InstanceClaim String × W → Outcome W
  unfolding handle_primary_runtime_request forward_runtime_request
  settle_runtime_claim action elevated detached (ok (primary handle), w) =
      handle_primary_runtime_request action elevated detached handle w
  settle_runtime_claim action elevated detached (ok secondary, w) =
      forward_runtime_request (ipc_request_for action)
        (handle_primary_runtime_request action elevated detached) w
  settle_runtime_claim action elevated detached (err error, w) = (err error, w)

  unfoldable pub claimed :
      Option (Result InstanceClaim String) × W → Result InstanceClaim String × W
  unfolding unreachable_error
  claimed (none, w) = (err unreachable_error, w)
  claimed (some r, w) = (r, w)

  unfoldable pub claim_for_runtime : Bool → W → Result InstanceClaim String × W
  unfolding claimed
  claim_for_runtime true w = claimed (
      claim_primary_instance_with_retry process.mutexes elevated_relaunch_mutex_retry_attempts
        elevated_relaunch_mutex_retry_delay w)
  claim_for_runtime false w = claim_primary_instance process.mutexes w

  unfoldable pub handle_runtime_request : RequestedAction → Bool → Bool → W → Outcome W
  unfolding settle_runtime_claim claim_for_runtime
  handle_runtime_request action internal_elevated_relaunch internal_detached_runtime w =
      settle_runtime_claim action internal_elevated_relaunch internal_detached_runtime
        (claim_for_runtime (is_default action && internal_elevated_relaunch) w)
