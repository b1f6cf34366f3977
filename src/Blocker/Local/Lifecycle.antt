-- ===== src/Blocker/Local/Lifecycle.antt =====
-- The worker of src/blocker/local.rs under every schedule.
use wardoff.Prelude.{◌⊎◌, Bool, true, false, Option, none, some, List, [], ◌∷◌, ◌≡◌, arith}
use wardoff.Logger.Journal.{Env}
use wardoff.Blocker.Windows.{Windows}
use wardoff.Blocker.Local.{
  processing, LocalShutdownWorker, LocalShutdownBlocker, default, worker_step, activate, deactivate,
}

abbrev pub is_processing : Option LocalShutdownWorker → Bool
is_processing none = false
is_processing (some w) = elim w.phase [ processing _ ↦ true | _ ↦ false ]

-- The layer reports to be active only while its worker processes the trace.
pub record Inv (b : LocalShutdownBlocker) : Type 0 where
  pub active_processes : (b.active_state ≡ false) ⊎ (is_processing b.worker ≡ true)

pub default-Inv : Inv default
unfolding default
default-Inv = ground arith

pub data Event : Type 0 where
  activates turns deactivates : Event

module _ {W : Type 0} (sys : Windows W) where
  unfoldable pub handle : Event → LocalShutdownBlocker → Env W → LocalShutdownBlocker × Env W
  handle activates b env = let (r, b', env') = activate sys b env in (b', env')
  handle turns b env = worker_step sys b env
  handle deactivates b env = deactivate sys b env

  unfoldable pub run : List Event → LocalShutdownBlocker → Env W → LocalShutdownBlocker × Env W
  unfolding handle
  run [] b env = (b, env)
  run (e ∷ es) b env = let (b', env') = handle e b env in run es b' env'

module _ {W : Type 0} (sys : Windows W) where
  pub worker_step-Inv :
      (b : LocalShutdownBlocker) (env : Env W) → Inv b → Inv (worker_step sys b env).0
  unfolding worker_step
  worker_step-Inv b env h = ground arith

  pub deactivate_resets :
      (b : LocalShutdownBlocker) (env : Env W) → Inv b → (deactivate sys b env).0 ≡ default
  unfolding deactivate worker_step default
  deactivate_resets b env h = ground arith

  pub activate-Inv : (b : LocalShutdownBlocker) (env : Env W) → Inv b → Inv (activate sys b env).1
  unfolding activate
  activate-Inv b env h = ground arith

  handle-Inv :
      (e : Event) (b : LocalShutdownBlocker) (env : Env W) → Inv b → Inv (handle sys e b env).0
  unfolding handle default
  handle-Inv activates b env h = activate-Inv b env h
  handle-Inv turns b env h = worker_step-Inv b env h
  handle-Inv deactivates b env h = ground (arith, deactivate_resets b env h)

  run-Inv :
      (es : List Event) (b : LocalShutdownBlocker) (env : Env W) → Inv b → Inv (run sys es b env).0
  unfolding run
  run-Inv [] b env h = h
  run-Inv (e ∷ es) b env h =
      let (b', env') = handle sys e b env in run-Inv es b' env' (handle-Inv e b env h)

  -- After any history of calls and turns the layer reports to be active only while its worker
  -- processes the trace, and `deactivate` brings it back to the state in which it was created.
  pub local_run_safe :
      (es : List Event) (env : Env W)
      → let (b, env') = run sys es default env in
        ((b.active_state ≡ false) ⊎ (is_processing b.worker ≡ true))
        × ((deactivate sys b env').0 ≡ default)
  local_run_safe es env =
      let (b, env') = run sys es default env in
      let inv = run-Inv es default env default-Inv in
      (inv.active_processes, deactivate_resets b env' inv)
