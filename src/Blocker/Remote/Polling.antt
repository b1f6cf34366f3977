-- ===== src/Blocker/Remote/Polling.antt =====
-- The worker thread of src/blocker/remote.rs under every schedule.
use wardoff.Prelude.{◌⊎◌, Bool, true, false, Option, none, some, List, [], ◌∷◌, ◌≡◌, arith}
use wardoff.Logger.Journal.{Env}
use wardoff.Blocker.Windows.{Windows}
use wardoff.Blocker.Remote.{
  Phase, polling, finished, RemoteShutdownBlocker, RemoteShutdownWorker, default, worker_step,
  activate, begin_forced_shutdown_cleanup, deactivate,
}

abbrev pub phase_of : Option RemoteShutdownWorker → Phase
phase_of none = finished
phase_of (some w) = w.phase

abbrev pub is_stopping : Option RemoteShutdownWorker → Bool
is_stopping none = true
is_stopping (some w) = w.stop_queued

-- The layer reports to be active only while its worker polls.
pub record Inv (b : RemoteShutdownBlocker) : Type 0 where
  pub active_polls : (b.active_state ≡ false) ⊎ (phase_of b.worker ≡ polling)

pub default-Inv : Inv default
unfolding default
default-Inv = ground arith

-- The controller's calls and the worker's turns, in any order.
pub data Event : Type 0 where
  activates turns cleans_up deactivates : Event

module _ {W : Type 0} (sys : Windows W) where
  unfoldable pub handle : Event → RemoteShutdownBlocker → Env W → RemoteShutdownBlocker × Env W
  handle activates b env = let (r, b', env') = activate sys b env in (b', env')
  handle turns b env = worker_step sys b env
  handle cleans_up b env = (begin_forced_shutdown_cleanup sys b, env)
  handle deactivates b env = deactivate sys b env

  unfoldable pub run : List Event → RemoteShutdownBlocker → Env W → RemoteShutdownBlocker × Env W
  unfolding handle
  run [] b env = (b, env)
  run (e ∷ es) b env = let (b', env') = handle e b env in run es b' env'

module _ {W : Type 0} (sys : Windows W) where
  pub worker_step-Inv :
      (b : RemoteShutdownBlocker) (env : Env W) → Inv b → Inv (worker_step sys b env).0
  unfolding worker_step
  worker_step-Inv b env h = ground arith

  -- In a layer that satisfies the invariant, a worker that was told to stop has ended after two turns,
  -- whatever Windows answers, and the layer is inactive: `join` in `deactivate` returns.
  pub worker_step-finishes :
      (b : RemoteShutdownBlocker) (env : Env W)
      → is_stopping b.worker ≡ true
      → Inv b
      → let (b', env') = worker_step sys b env in
        let (b'', env'') = worker_step sys b' env' in
        (phase_of b''.worker ≡ finished) × (b''.active_state ≡ false)
  unfolding worker_step
  worker_step-finishes b env s h = ground arith

  pub cleanup-Inv : (b : RemoteShutdownBlocker) → Inv b → Inv (begin_forced_shutdown_cleanup sys b)
  unfolding begin_forced_shutdown_cleanup
  cleanup-Inv b h = ground arith

  cleanup_stops :
      (b : RemoteShutdownBlocker) → is_stopping (begin_forced_shutdown_cleanup sys b).worker ≡ true
  unfolding begin_forced_shutdown_cleanup
  cleanup_stops b = ground arith

  -- `deactivate` ends the worker and leaves the layer as it was created.
  pub deactivate_resets :
      (b : RemoteShutdownBlocker) (env : Env W) → Inv b → (deactivate sys b env).0 ≡ default
  unfolding deactivate default
  deactivate_resets b env h = ground (
    arith,
    worker_step-finishes (begin_forced_shutdown_cleanup sys b) env (cleanup_stops b)
        (cleanup-Inv b h),
  )

  pub activate-Inv : (b : RemoteShutdownBlocker) (env : Env W) → Inv b → Inv (activate sys b env).1
  unfolding activate
  activate-Inv b env h = ground arith

  handle-Inv :
      (e : Event) (b : RemoteShutdownBlocker) (env : Env W) → Inv b → Inv (handle sys e b env).0
  unfolding handle default
  handle-Inv activates b env h = activate-Inv b env h
  handle-Inv turns b env h = worker_step-Inv b env h
  handle-Inv cleans_up b env h = cleanup-Inv b h
  handle-Inv deactivates b env h = ground (arith, deactivate_resets b env h)

  run-Inv :
      (es : List Event) (b : RemoteShutdownBlocker) (env : Env W) → Inv b → Inv (run sys es b env).0
  unfolding run
  run-Inv [] b env h = h
  run-Inv (e ∷ es) b env h =
      let (b', env') = handle sys e b env in run-Inv es b' env' (handle-Inv e b env h)

  -- After any history of calls and turns the layer reports to be active only while its worker is in
  -- the polling loop, and `deactivate` brings it back to the state in which it was created.
  pub remote_run_safe :
      (es : List Event) (env : Env W)
      → let (b, env') = run sys es default env in
        ((b.active_state ≡ false) ⊎ (phase_of b.worker ≡ polling))
        × ((deactivate sys b env').0 ≡ default)
  remote_run_safe es env =
      let (b, env') = run sys es default env in
      let inv = run-Inv es default env default-Inv in
      (inv.active_polls, deactivate_resets b env' inv)
