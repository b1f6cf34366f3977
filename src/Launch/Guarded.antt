-- ===== src/Launch/Guarded.antt =====
-- When a process of src/main.rs does not start a runtime.
use wardoff.Prelude.{
  ℕ, zero, suc, Bool, true, false, Option, none, some, String, Result, ok, err, ◌⊎◌, inl, inr, ◌≡◌,
  refl, arith, ◌&&◌,
}
use wardoff.Cli.{RequestedAction}
use wardoff.Policy.{IpcRequest, RuntimeOptions, ipc_request_for}
use wardoff.Instance.{
  InstanceClaim, primary, secondary, claim_primary_instance, claim_attempts, settle_attempt,
  claim_primary_instance_with_retry,
}
use wardoff.Ipc.{IpcResponse}
use wardoff.Ipc.Client.{send_request}
use wardoff.Ipc.Connect.{ClientError, unavailable, transport}
use wardoff.Launch.Console.{inherited, console_launch_context}
use wardoff.Launch.{Process, Outcome, fall_back, settle_forward, forward_request_to_primary}
use wardoff.Launch.Runtime.{
  forward_runtime_request, settle_elevation, prepare_default_launch, settle_console,
  prepare_runtime_console_launch, after_console, after_default, handle_primary_runtime_request,
  settle_runtime_claim, claimed, claim_for_runtime, handle_runtime_request, is_default,
  DefaultLaunchDisposition, bootstrap, exit, RuntimeConsoleDisposition, proceed, leave,
}

abbrev is_proceed : Result RuntimeConsoleDisposition String → Bool
is_proceed (ok proceed) = true
is_proceed _ = false

abbrev is_bootstrap : Result DefaultLaunchDisposition String → Bool
is_bootstrap (ok (bootstrap handle)) = true
is_bootstrap _ = false

module _ {W : Type 0} (process : Process W)
    (run : ℕ → RuntimeOptions → W → Result (Unit {0}) String × W) where
  abbrev other : Process W
  other = record process { run_primary = run }

  -- Two fallbacks that always agree, and two that are not taken.
  fall_back-agree :
      (f g : ℕ → W → Outcome W) (x : Result InstanceClaim String × W)
      → ((handle : ℕ) (w : W) → f handle w ≡ g handle w)
      → fall_back other f x ≡ fall_back process g x
  unfolding fall_back
  fall_back-agree f g (ok (primary handle), w) h = h handle w
  fall_back-agree f g (ok secondary, w) h = refl
  fall_back-agree f g (err error, w) h = refl

  fall_back-secondary :
      (f g : ℕ → W → Outcome W) (x : Result InstanceClaim String × W)
      → x.0 ≡ ok secondary
      → fall_back other f x ≡ fall_back process g x
  unfolding fall_back
  fall_back-secondary f g (ok (primary handle), w) h = ground (arith, h)
  fall_back-secondary f g (ok secondary, w) h = refl
  fall_back-secondary f g (err error, w) h = refl

  settle_forward-same :
      (f g : ℕ → W → Outcome W) (x : Result IpcResponse ClientError × W)
      → ((w : W)
          → fall_back other f (claim_primary_instance process.mutexes w)
            ≡ fall_back process g (claim_primary_instance process.mutexes w))
      → settle_forward other f x ≡ settle_forward process g x
  unfolding settle_forward
  settle_forward-same f g (ok IpcResponse.ok, w) h = refl
  settle_forward-same f g (ok (IpcResponse.error message), w) h = refl
  settle_forward-same f g (ok (IpcResponse.status status), w) h = refl
  settle_forward-same f g (err unavailable, w) h = h w
  settle_forward-same f g (err (transport message), w) h = refl

  forward-same :
      (f g : ℕ → W → Outcome W) (request : Option IpcRequest) (w : W)
      → ((w : W)
          → fall_back other f (claim_primary_instance process.mutexes w)
            ≡ fall_back process g (claim_primary_instance process.mutexes w))
      → forward_runtime_request other request f w ≡ forward_runtime_request process request g w
  unfolding forward_runtime_request forward_request_to_primary
  forward-same f g none w h = refl
  forward-same f g (some request) w h =
      settle_forward-same f g
        (send_request process.codec process.pipes process.control_pipe request w) h

  module _ (action : RequestedAction) (relaunched detached : Bool) where
    same_if_primary_same :
        (x : Result InstanceClaim String × W)
        → ((handle : ℕ) (w : W)
            → handle_primary_runtime_request other action relaunched detached handle w
              ≡ handle_primary_runtime_request process action relaunched detached handle w)
        → settle_runtime_claim other action relaunched detached x
          ≡ settle_runtime_claim process action relaunched detached x
    unfolding settle_runtime_claim
    same_if_primary_same (ok (primary handle), w) h = h handle w
    same_if_primary_same (ok secondary, w) h =
        forward-same _ _ (ipc_request_for action) w
          λ w'. fall_back-agree _ _ (claim_primary_instance process.mutexes w') h
    same_if_primary_same (err error, w) h = refl

    same_if_secondary :
        (x : Result InstanceClaim String × W)
        → x.0 ≡ ok secondary
        → ((w : W) → (claim_primary_instance process.mutexes w).0 ≡ ok secondary)
        → settle_runtime_claim other action relaunched detached x
          ≡ settle_runtime_claim process action relaunched detached x
    unfolding settle_runtime_claim
    same_if_secondary (ok (primary handle), w) p h = ground (arith, p)
    same_if_secondary (ok secondary, w) p h =
        forward-same _ _ (ipc_request_for action) w
          λ w'. fall_back-secondary _ _ (claim_primary_instance process.mutexes w') (h w')
    same_if_secondary (err error, w) p h = refl

    -- An inherited console, without the flag of a detached runtime, ends the process first.
    leaves :
        (handle : ℕ) (x : Result RuntimeConsoleDisposition String × W)
        → is_proceed x.0 ≡ false
        → after_console other action handle x ≡ after_console process action handle x
    unfolding after_console
    leaves handle (ok proceed, w) h = ground (arith, h)
    leaves handle (ok (leave code), w) h = refl
    leaves handle (err error, w) h = refl

    inherited_leaves :
        (w : W)
        → console_launch_context process.consoles w ≡ ok inherited
        → is_proceed (prepare_runtime_console_launch process false w).0 ≡ false
    unfolding prepare_runtime_console_launch settle_console
    inherited_leaves w h = ground (arith, h)

    after_default-inherited :
        (x : Result DefaultLaunchDisposition String × W)
        → detached ≡ false
        → ((w : W) → console_launch_context process.consoles w ≡ ok inherited)
        → after_default other action detached x ≡ after_default process action detached x
    unfolding after_default prepare_runtime_console_launch settle_console
    after_default-inherited (ok (bootstrap handle), w) d h =
        leaves handle (prepare_runtime_console_launch process detached w)
          (rw d (inherited_leaves w (h w)))
    after_default-inherited (ok (exit code), w) d h = refl
    after_default-inherited (err error, w) d h = refl

    -- A default launch without administrator rights ends or is relaunched.
    after_default-exits :
        (x : Result DefaultLaunchDisposition String × W)
        → is_bootstrap x.0 ≡ false
        → after_default other action detached x ≡ after_default process action detached x
    unfolding after_default
    after_default-exits (ok (bootstrap handle), w) h = ground (arith, h)
    after_default-exits (ok (exit code), w) h = refl
    after_default-exits (err error, w) h = refl

    unelevated_exits :
        (handle : ℕ) (w : W)
        → (process.is_process_elevated w).0 ≡ ok false
        → is_bootstrap (prepare_default_launch process handle relaunched w).0 ≡ false
    unfolding prepare_default_launch settle_elevation
    unelevated_exits handle w h = ground (arith, h)

    inherited_same :
        (handle : ℕ) (w : W)
        → detached ≡ false
        → ((w : W) → console_launch_context process.consoles w ≡ ok inherited)
        → handle_primary_runtime_request other action relaunched detached handle w
          ≡ handle_primary_runtime_request process action relaunched detached handle w
    unfolding handle_primary_runtime_request prepare_default_launch settle_elevation
    inherited_same handle w d h = after_default-inherited _ d h

    unelevated_same :
        (handle : ℕ) (w : W)
        → is_default action ≡ true
        → ((w : W) → (process.is_process_elevated w).0 ≡ ok false)
        → handle_primary_runtime_request other action relaunched detached handle w
          ≡ handle_primary_runtime_request process action relaunched detached handle w
    unfolding handle_primary_runtime_request prepare_default_launch settle_elevation
    unelevated_same handle w d h = after_default-exits _ (rw d (unelevated_exits handle w (h w)))

  claim_attempts-secondary :
      (left delay : ℕ) (w : W)
      → ((w : W) → (claim_primary_instance process.mutexes w).0 ≡ ok secondary)
      → (claim_attempts process.mutexes (suc left) delay w).0 ≡ some (ok secondary)
  unfolding claim_attempts settle_attempt
  claim_attempts-secondary zero delay w h = ground (arith, h w)
  claim_attempts-secondary (suc left) delay w h =
      let w' = process.mutexes.sleep delay (claim_primary_instance process.mutexes w).1 in
      ground (arith, h w, claim_attempts-secondary left delay w' h)

  claim_for_runtime-secondary :
      (retries : Bool) (w : W)
      → ((w : W) → (claim_primary_instance process.mutexes w).0 ≡ ok secondary)
      → (claim_for_runtime process retries w).0 ≡ ok secondary
  unfolding claim_for_runtime claimed claim_primary_instance_with_retry
  claim_for_runtime-secondary false w h = h w
  claim_for_runtime-secondary true w h = ground (arith, claim_attempts-secondary 19 100 w h)

-- A process asks for the runtime of its command line in the same way whatever the runtime would do,
-- so that it does not start one: if every claim finds another instance, if it is the default command
-- line and the process has no administrator rights, or if it shares the console of a shell and was
-- not started as the detached runtime.
pub runtime_not_started :
    {W : Type 0} (process : Process W) (run : ℕ → RuntimeOptions → W → Result (Unit {0}) String × W)
    (action : RequestedAction) (relaunched detached : Bool) (w : W)
    → ((w : W) → (claim_primary_instance process.mutexes w).0 ≡ ok secondary)
      ⊎ (is_default action ≡ true × ((w : W) → (process.is_process_elevated w).0 ≡ ok false))
      ⊎ (detached ≡ false × ((w : W) → console_launch_context process.consoles w ≡ ok inherited))
    → handle_runtime_request (record process { run_primary = run }) action relaunched detached w
      ≡ handle_runtime_request process action relaunched detached w
unfolding handle_runtime_request claim_for_runtime claimed
runtime_not_started process run action relaunched detached w h =
    let x = claim_for_runtime process (is_default action && relaunched) w in
    elim h [
      | inl claims ↦
          same_if_secondary process run action relaunched detached x
            (claim_for_runtime-secondary process run (is_default action && relaunched) w claims)
            claims
      | inr (inl unelevated) ↦
          same_if_primary_same process run action relaunched detached x λ handle w'.
            unelevated_same process run action relaunched detached handle w' unelevated.0
              unelevated.1
      | inr (inr shell) ↦ same_if_primary_same process run action relaunched detached x λ handle w'.
          inherited_same process run action relaunched detached handle w' shell.0 shell.1
    ]
