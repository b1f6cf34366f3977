-- ===== src/App/Modes.antt =====
-- What `Application::set_mode` of src/main.rs guarantees.
use wardoff.Prelude.{
  Bool, true, false, is_some, String, Result, ok, err, is_ok, ◌≡◌, sym, ◌⊎◌, arith,
}
use wardoff.Logger.Journal.{Env, EventSource}
use wardoff.Blocker.Windows.{Windows}
use wardoff.Blocker.Coordinator.{BlockerMode, block, allow, BlockerCoordinator, same_mode}
use wardoff.Blocker.Coordinator
use wardoff.Blocker.Coordinator.Consistency.{IsConsistent}
use wardoff.Blocker.Coordinator.History.{set_mode-IsConsistent, set_mode-mode}
use wardoff.App.{
  Application, Outcome, with_mode, sync_tray, roll_back_mode, settle_tray, settle_switch, set_mode,
}

module _ {W : Type 0} (sys : Windows W) where
  -- What a call that asks for `mode` leaves behind, for an application that was `app`.
  abbrev pub Switched : BlockerMode → Application W → Outcome W → Type 0
  Switched mode app (r, app', env') =
      IsConsistent app'.blocker_coordinator
      × ((is_ok r ≡ false) ⊎ (app'.blocker_coordinator.mode ≡ mode))
      × ((is_ok r ≡ same_mode app'.blocker_coordinator.mode mode)
          ⊎ (is_some app.tray_service ≡ true))
      × (app'.tray_service ≡ app.tray_service)
      × (app'.pending_block_restore_after_wake ≡ app.pending_block_restore_after_wake)
      × (app'.forced_shutdown_cleanup_completed ≡ app.forced_shutdown_cleanup_completed)

  roll_back_mode-Switched :
      (previous mode : BlockerMode) (e : String) (source : EventSource) (app : Application W)
      (env : Env W)
      → IsConsistent app.blocker_coordinator
      → is_some app.tray_service ≡ true
      → Switched mode app (roll_back_mode sys previous mode e source app env)
  unfolding roll_back_mode with_mode
  roll_back_mode-Switched previous mode e source app env h t =
      ground (arith, set_mode-IsConsistent sys previous app.blocker_coordinator env h)

  sync_tray_headless :
      (mode : BlockerMode) (app : Application W) (env : Env W)
      → (is_some app.tray_service ≡ true) ⊎ (is_ok (sync_tray mode app env).0 ≡ true)
  unfolding sync_tray
  sync_tray_headless mode app env = ground arith

  same_mode-eq : (a b : BlockerMode) → same_mode a b ≡ true → a ≡ b
  same_mode-eq a b h = ground arith

  same_mode_refl : (a : BlockerMode) → same_mode a a ≡ true
  same_mode_refl a = ground arith

  settle_tray-Switched :
      (previous mode : BlockerMode) (source : EventSource) (app : Application W)
      (r : Result (Unit {0}) String) (env : Env W)
      → IsConsistent app.blocker_coordinator
      → app.blocker_coordinator.mode ≡ mode
      → (is_some app.tray_service ≡ true) ⊎ (is_ok r ≡ true)
      → Switched mode app (settle_tray sys previous mode source app (r, env))
  unfolding settle_tray
  settle_tray-Switched previous mode source app (ok _) env h m t = ground arith
  settle_tray-Switched previous mode source app (err e) env h m t =
      roll_back_mode-Switched previous mode e source app env h (ground arith)

  settle_switch-Switched :
      (mode : BlockerMode) (source : EventSource) (app : Application W) (r : Result Bool String)
      (c : BlockerCoordinator) (env : Env W)
      → IsConsistent c
      → is_ok r ≡ same_mode c.mode mode
      → Switched mode app (settle_switch sys mode source app (r, c, env))
  unfolding settle_switch with_mode
  settle_switch-Switched mode source app (ok _) c env h m =
      let (r, env') = sync_tray c.mode (with_mode c app) env in
      settle_tray-Switched app.blocker_coordinator.mode mode source (with_mode c app) r env' h
        (same_mode-eq c.mode mode (sym m)) (sync_tray_headless c.mode (with_mode c app) env)
  settle_switch-Switched mode source app (err e) c env h m = ground arith

  pub set_mode-Switched :
      (mode : BlockerMode) (source : EventSource) (app : Application W) (env : Env W)
      → IsConsistent app.blocker_coordinator
      → Switched mode app (set_mode sys mode source app env)
  unfolding set_mode
  set_mode-Switched mode source app env h =
      let (r, c, env') = Coordinator.set_mode sys mode app.blocker_coordinator env in
      ground (
        arith,
        sync_tray_headless app.blocker_coordinator.mode app env,
        settle_switch-Switched mode source app r c env'
            (set_mode-IsConsistent sys mode app.blocker_coordinator env h)
            (set_mode-mode sys mode app.blocker_coordinator env h),
      )

  -- A consistent coordinator stays consistent, whatever Windows and the tray answer, and a change that succeeds ends in the requested mode. Without
  -- a tray it succeeds exactly when it ends there. Only the coordinator changes.
  pub set_mode_outcome :
      (mode : BlockerMode) (source : EventSource) (app : Application W) (env : Env W)
      → IsConsistent app.blocker_coordinator
      → let (r, app', env') = set_mode sys mode source app env in
        IsConsistent app'.blocker_coordinator
        × ((is_ok r ≡ false) ⊎ (app'.blocker_coordinator.mode ≡ mode))
        × ((is_ok r ≡ same_mode app'.blocker_coordinator.mode mode)
            ⊎ (is_some app.tray_service ≡ true))
        × (app'.tray_service ≡ app.tray_service)
        × (app'.pending_block_restore_after_wake ≡ app.pending_block_restore_after_wake)
        × (app'.forced_shutdown_cleanup_completed ≡ app.forced_shutdown_cleanup_completed)
  set_mode_outcome mode source app env h = set_mode-Switched mode source app env h
