-- ===== src/Blocker/Update/Lifecycle.antt =====
-- The worker of src/blocker/update.rs under every schedule.
use wardoff.Prelude.{◌⊎◌, false, Option, none, some, List, [], ◌∷◌, ◌≡◌, arith}
use wardoff.Logger.Journal.{Env}
use wardoff.Blocker.Windows.{Windows}
use wardoff.Blocker.Update.Worker.{
  Phase, polling, finished, UpdateRebootWorker, UpdateRebootBlocker, default, worker_step, activate,
  begin_forced_shutdown_cleanup, deactivate,
}

abbrev pub phase_of : Option UpdateRebootWorker → Phase
phase_of none = finished
phase_of (some w) = w.phase

-- The layer reports to be active only while its worker polls.
pub record Inv (b : UpdateRebootBlocker) : Type 0 where
  pub active_polls : (b.active_state ≡ false) ⊎ (phase_of b.worker ≡ polling)

pub default-Inv : Inv default
unfolding default
default-Inv = ground arith

-- No worker and not active: what is left of an earlier run is only the restore state.
pub record IsIdle (b : UpdateRebootBlocker) : Type 0 where
  pub no_worker : b.worker ≡ none
  pub inactive : b.active_state ≡ false

pub data Event : Type 0 where
  activates turns cleans_up deactivates : Event

module _ {W : Type 0} (sys : Windows W) where
  unfoldable pub handle : Event → UpdateRebootBlocker → Env W → UpdateRebootBlocker × Env W
  handle activates b env = let (r, b', env') = activate sys b env in (b', env')
  handle turns b env = worker_step sys b env
  handle cleans_up b env = (begin_forced_shutdown_cleanup sys b, env)
  handle deactivates b env = deactivate sys b env

  unfoldable pub run : List Event → UpdateRebootBlocker → Env W → UpdateRebootBlocker × Env W
  unfolding handle
  run [] b env = (b, env)
  run (e ∷ es) b env = let (b', env') = handle e b env in run es b' env'

module _ {W : Type 0} (sys : Windows W) where
  pub worker_step-Inv :
      (b : UpdateRebootBlocker) (env : Env W) → Inv b → Inv (worker_step sys b env).0
  unfolding worker_step
  worker_step-Inv b env h = ground arith

  pub deactivate-IsIdle :
      (b : UpdateRebootBlocker) (env : Env W) → Inv b → IsIdle (deactivate sys b env).0
  unfolding deactivate worker_step
  deactivate-IsIdle b env h = ground arith

  pub activate-Inv : (b : UpdateRebootBlocker) (env : Env W) → Inv b → Inv (activate sys b env).1
  unfolding activate
  activate-Inv b env h = ground arith

  pub cleanup-Inv : (b : UpdateRebootBlocker) → Inv b → Inv (begin_forced_shutdown_cleanup sys b)
  unfolding begin_forced_shutdown_cleanup
  cleanup-Inv b h = ground arith

  handle-Inv :
      (e : Event) (b : UpdateRebootBlocker) (env : Env W) → Inv b → Inv (handle sys e b env).0
  unfolding handle
  handle-Inv activates b env h = activate-Inv b env h
  handle-Inv turns b env h = worker_step-Inv b env h
  handle-Inv cleans_up b env h = cleanup-Inv b h
  handle-Inv deactivates b env h = ground (arith, deactivate-IsIdle b env h)

  run-Inv :
      (es : List Event) (b : UpdateRebootBlocker) (env : Env W) → Inv b → Inv (run sys es b env).0
  unfolding run
  run-Inv [] b env h = h
  run-Inv (e ∷ es) b env h =
      let (b', env') = handle sys e b env in run-Inv es b' env' (handle-Inv e b env h)

  -- After any history of calls and turns the layer reports to be active only while its worker is in
  -- the polling loop, and `deactivate` leaves no worker and an inactive layer.
  pub update_run_safe :
      (es : List Event) (env : Env W)
      → let (b, env') = run sys es default env in
        ((b.active_state ≡ false) ⊎ (phase_of b.worker ≡ polling))
        × IsIdle (deactivate sys b env').0
  update_run_safe es env =
      let (b, env') = run sys es default env in
      let inv = run-Inv es default env default-Inv in
      (inv.active_polls, deactivate-IsIdle b env' inv)
