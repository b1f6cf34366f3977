-- ===== src/Blocker/Coordinator/History.antt =====
-- Every history of `BlockerCoordinator` (src/blocker/mod.rs) in which Windows does not end the session.
use wardoff.Prelude.{
  ℕ, true, false, ok, List, [], ◌∷◌, ◌≡◌, refl, arith, is_ok, if◌then◌else◌, ◌⊎◌, inl, inr,
}
use wardoff.Logger.Journal.{Env}
use wardoff.Blocker.Windows.{Windows}
use wardoff.Blocker.PowerRequests
use wardoff.Blocker.PowerRequests.Outcome.{IsSettled, default-IsSettled, close_empties}
use wardoff.Blocker.SleepBlocker.{SleepBlocker}
use wardoff.Blocker.SleepBlocker
use wardoff.Blocker.ShutdownBlocker.{handle_query_end_session}
use wardoff.Blocker.Remote
use wardoff.Blocker.Remote.Polling
use wardoff.Blocker.Update.Worker as Update
use wardoff.Blocker.Update.Lifecycle
use wardoff.Blocker.Local
use wardoff.Blocker.Local.Lifecycle as LocalLifecycle
use wardoff.Blocker.Coordinator.{
  BlockerMode, block, allow, BlockerCoordinator, same_mode, set_mode,
  renew_sleep_requests_after_resume, idle,
}
use wardoff.Blocker.Coordinator.Consistency.{
  IsConsistent, OthersIdle, idle-IsConsistent, sleep-activate,
}
use wardoff.Blocker.Coordinator.Switching.{set_mode-block, set_mode-allow}

-- The calls of the application, and the turns of the three worker threads between them.
pub data Operation : Type 0 where
  sets_mode : BlockerMode → Operation
  resumes local_turn update_turn remote_turn : Operation

module _ {W : Type 0} (sys : Windows W) where
  unfoldable pub operate : Operation → BlockerCoordinator → Env W → BlockerCoordinator × Env W
  operate (sets_mode mode) c env = let (r, c', env') = set_mode sys mode c env in (c', env')
  operate resumes c env =
      let (r, c', env') = renew_sleep_requests_after_resume sys c env in (c', env')
  operate local_turn c env =
      let (b, env') = Local.worker_step sys c.local_shutdown_blocker env in
      (record c { local_shutdown_blocker = b }, env')
  operate update_turn c env =
      let (b, env') = Update.worker_step sys c.update_reboot_blocker env in
      (record c { update_reboot_blocker = b }, env')
  operate remote_turn c env =
      let (b, env') = Remote.worker_step sys c.remote_shutdown_blocker env in
      (record c { remote_shutdown_blocker = b }, env')

  unfoldable pub operate_all :
      List Operation → BlockerCoordinator → Env W → BlockerCoordinator × Env W
  unfolding operate
  operate_all [] c env = (c, env)
  operate_all (o ∷ os) c env = let (c', env') = operate o c env in operate_all os c' env'

module _ {W : Type 0} (sys : Windows W) where
  renew-IsSettled :
      (b : SleepBlocker) (env : Env W)
      → IsSettled (SleepBlocker.renew_after_resume sys.power b env).1.requests
  unfolding SleepBlocker.renew_after_resume
  renew-IsSettled b env =
      let (r, p, w) = PowerRequests.close sys.power b.requests env.world in
      ground (
        arith,
        close_empties sys.power b.requests env.world,
        default-IsSettled,
        sleep-activate sys.power (record { requests = p }) (record env { world = w }),
      )

  mode_cases : (m : BlockerMode) → (m ≡ block) ⊎ (m ≡ allow)
  mode_cases block = inl refl
  mode_cases allow = inr refl

  pub set_mode_same :
      (mode : BlockerMode) (c : BlockerCoordinator) (env : Env W)
      → same_mode c.mode mode ≡ true
      → set_mode sys mode c env ≡ (ok false, c, env)
  unfolding set_mode
  set_mode_same mode c env m = rw m

  pub set_mode-IsConsistent :
      (mode : BlockerMode) (c : BlockerCoordinator) (env : Env W)
      → IsConsistent c
      → IsConsistent (set_mode sys mode c env).1
  set_mode-IsConsistent block c env h = elim (mode_cases c.mode) [
    | inl m ↦ rw (set_mode_same block c env (rw m)) h
    | inr m ↦ (set_mode-block sys c env h m).0
  ]
  set_mode-IsConsistent allow c env h = elim (mode_cases c.mode) [
    | inl m ↦ (set_mode-allow sys c env h m).0
    | inr m ↦ rw (set_mode_same allow c env (rw m)) h
  ]

  -- A change of mode succeeds exactly when the mode is the requested one afterwards.
  pub set_mode-mode :
      (mode : BlockerMode) (c : BlockerCoordinator) (env : Env W)
      → IsConsistent c
      → let (r, c', env') = set_mode sys mode c env in is_ok r ≡ same_mode c'.mode mode
  set_mode-mode block c env h = elim (mode_cases c.mode) [
    | inl m ↦ rw (set_mode_same block c env (rw m)) (ground arith)
    | inr m ↦ (set_mode-block sys c env h m).1
  ]
  set_mode-mode allow c env h = elim (mode_cases c.mode) [
    | inl m ↦ (set_mode-allow sys c env h m).1
    | inr m ↦ rw (set_mode_same allow c env (rw m)) (ground arith)
  ]

  local_turn-IsConsistent :
      (c : BlockerCoordinator) (env : Env W)
      → IsConsistent c
      → IsConsistent (operate sys local_turn c env).0
  unfolding operate Local.worker_step Local.default
  local_turn-IsConsistent c env h =
      ground
        (arith, LocalLifecycle.worker_step-Inv sys c.local_shutdown_blocker env h.layers.local_inv)

  update_turn-IsConsistent :
      (c : BlockerCoordinator) (env : Env W)
      → IsConsistent c
      → IsConsistent (operate sys update_turn c env).0
  unfolding operate Update.worker_step
  update_turn-IsConsistent c env h =
      ground (arith, Lifecycle.worker_step-Inv sys c.update_reboot_blocker env h.layers.update_inv)

  remote_turn-IsConsistent :
      (c : BlockerCoordinator) (env : Env W)
      → IsConsistent c
      → IsConsistent (operate sys remote_turn c env).0
  unfolding operate Remote.worker_step Remote.default
  remote_turn-IsConsistent c env h =
      ground (arith, Polling.worker_step-Inv sys c.remote_shutdown_blocker env h.layers.remote_inv)

  resumes-IsConsistent :
      (c : BlockerCoordinator) (env : Env W)
      → IsConsistent c
      → IsConsistent (operate sys resumes c env).0
  unfolding operate renew_sleep_requests_after_resume
  resumes-IsConsistent c env h = ground (arith, renew-IsSettled c.sleep_blocker env)

  pub operate-IsConsistent :
      (o : Operation) (c : BlockerCoordinator) (env : Env W)
      → IsConsistent c
      → IsConsistent (operate sys o c env).0
  unfolding operate
  operate-IsConsistent (sets_mode mode) c env h = set_mode-IsConsistent mode c env h
  operate-IsConsistent resumes c env h = resumes-IsConsistent c env h
  operate-IsConsistent local_turn c env h = local_turn-IsConsistent c env h
  operate-IsConsistent update_turn c env h = update_turn-IsConsistent c env h
  operate-IsConsistent remote_turn c env h = remote_turn-IsConsistent c env h

  operate_all-IsConsistent :
      (os : List Operation) (c : BlockerCoordinator) (env : Env W)
      → IsConsistent c
      → IsConsistent (operate_all sys os c env).0
  unfolding operate_all
  operate_all-IsConsistent [] c env h = h
  operate_all-IsConsistent (o ∷ os) c env h =
      let (c', env') = operate sys o c env in
      operate_all-IsConsistent os c' env' (operate-IsConsistent o c env h)

  pub query_answer :
      (c : BlockerCoordinator) (lparam : ℕ) (env : Env W)
      → IsConsistent c
      → (handle_query_end_session c.shutdown_blocker lparam env).0
        ≡ (if same_mode c.mode block then 0 else 1)
  unfolding handle_query_end_session
  query_answer c lparam env h = ground arith

  -- After any history of mode changes, resumes and worker turns of a new coordinator, and whatever
  -- Windows answered: a shutdown query is refused exactly in Block mode, and in Allow mode no layer
  -- keeps a worker thread or a power request.
  pub query_follows_mode :
      (os : List Operation) (lparam : ℕ) (env : Env W)
      → let (c, env') = operate_all sys os idle env in
        ((handle_query_end_session c.shutdown_blocker lparam env').0
          ≡ (if same_mode c.mode block then 0 else 1))
        × ((c.mode ≡ block) ⊎ OthersIdle c)
  query_follows_mode os lparam env =
      let (c, env') = operate_all sys os idle env in
      let h = operate_all-IsConsistent os idle env idle-IsConsistent in
      (query_answer c lparam env' h, h.allow_idle)
