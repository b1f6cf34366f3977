-- ===== src/App/Invariant.antt =====
-- The invariant of `Application` (src/main.rs), and that its operations keep it.
use wardoff.Prelude.{
  Bool, true, false, Option, none, some, String, Result, ok, err, ◌≡◌, sym, subst, arith,
}
use wardoff.Logger.Journal.{Env, EventSource, tray}
use wardoff.Blocker.Windows.{Windows}
use wardoff.Blocker.ShutdownBlocker.{PowerBroadcastEvent, suspend, resume}
use wardoff.Blocker.Coordinator.{
  BlockerMode, block, allow, BlockerCoordinator, same_mode, renew_sleep_requests_after_resume,
}
use wardoff.Blocker.Power.{PowerAction, execute_power_action}
use wardoff.Blocker.Coordinator
use wardoff.Blocker.Coordinator.Consistency.{IsConsistent}
use wardoff.Blocker.Coordinator.History.{
  resumes, operate, operate-IsConsistent, set_mode-IsConsistent,
}
use wardoff.Policy.{
  PendingWakeRestore, pending_wake_restore_for_tray_power_action,
  pending_wake_restore_ready_for_resume, pending_action, mark_system_suspended,
}
use wardoff.App.{Application, with_mode, set_mode, clear_pending_block_restore_after_wake}
use wardoff.App.Modes.{Switched, set_mode-Switched}
use wardoff.App.Power.{
  recover_mode, issue_action, act_in_allow_mode, run_power_action, finish_restore, restore_pending,
  mark_pending, restore_block_after_wake_if_needed, handle_power_broadcast,
}

abbrev pub sleeps : PowerAction → Bool
sleeps PowerAction.sleep = true
sleeps PowerAction.hibernate = true
sleeps _ = false

-- A restore of Block mode is owed only in Allow mode, and only to a sleep or a hibernation.
abbrev pub Owed : Option PendingWakeRestore → BlockerMode → Type 0
Owed none mode = Unit {0}
Owed (some pending) mode = (mode ≡ allow) × (sleeps (pending_action pending) ≡ true)

abbrev pub AppInv : {W : Type 0} → Application W → Type 0
AppInv app =
    IsConsistent app.blocker_coordinator
    × Owed app.pending_block_restore_after_wake app.blocker_coordinator.mode

Owed-cleared : (p : Option PendingWakeRestore) (mode : BlockerMode) → p ≡ none → Owed p mode
Owed-cleared p mode h = rw h tt

module _ {W : Type 0} (sys : Windows W) where
  -- A choice of mode by the user, which cancels what is owed.
  pub chosen-AppInv :
      (mode : BlockerMode) (source : EventSource) (app : Application W) (env : Env W)
      → IsConsistent app.blocker_coordinator
      → AppInv (set_mode sys mode source (clear_pending_block_restore_after_wake app) env).1
  unfolding clear_pending_block_restore_after_wake
  chosen-AppInv mode source app env h =
      let cleared = clear_pending_block_restore_after_wake app in
      let (r, app', env') = set_mode sys mode source cleared env in
      let s = set_mode-Switched sys mode source cleared env h in
      (s.0, Owed-cleared app'.pending_block_restore_after_wake app'.blocker_coordinator.mode s.4)

  recover_mode-AppInv :
      (previous : BlockerMode) (action : PowerAction) (m : String) (app : Application W)
      (env : Env W)
      → IsConsistent app.blocker_coordinator
      → AppInv
          (recover_mode sys previous action m (clear_pending_block_restore_after_wake app) env).1
  unfolding recover_mode clear_pending_block_restore_after_wake
  recover_mode-AppInv block action m app env h = chosen-AppInv block tray app env h
  recover_mode-AppInv allow action m app env h = (h, tt)

  issue_action-AppInv :
      (previous : BlockerMode) (action : PowerAction) (app : Application W)
      (r : Result (Unit {0}) String) (env : Env W)
      → AppInv app
      → AppInv (issue_action sys previous action app r env).1
  unfolding issue_action
  issue_action-AppInv previous action app (ok _) env h = h
  issue_action-AppInv previous action app (err m) env h =
      recover_mode-AppInv previous action m app _ h.0

  act_in_allow_mode-AppInv :
      (previous : BlockerMode) (action : PowerAction) (start : Application W)
      (r : Result (Unit {0}) String) (app : Application W) (env : Env W)
      → Switched sys allow start (r, app, env)
      → Owed start.pending_block_restore_after_wake allow
      → AppInv (act_in_allow_mode sys previous action (r, app, env)).1
  unfolding act_in_allow_mode clear_pending_block_restore_after_wake
  act_in_allow_mode-AppInv previous action start (ok _) app env s owed =
      let (r, w) = execute_power_action sys action env.world in
      issue_action-AppInv previous action app r (record env { world = w }) (ground (arith, s, owed))
  act_in_allow_mode-AppInv previous action start (err e) app env s owed = (s.0, tt)

  pending_for_action-Owed :
      (previous : BlockerMode) (action : PowerAction)
      → Owed (pending_wake_restore_for_tray_power_action previous action) allow
  unfolding pending_wake_restore_for_tray_power_action pending_action
  pending_for_action-Owed previous action = ground arith

  pub run_power_action-AppInv :
      (action : PowerAction) (app : Application W) (env : Env W)
      → AppInv app
      → AppInv (run_power_action sys action app env).1
  unfolding run_power_action
  run_power_action-AppInv action app env h =
      let previous = app.blocker_coordinator.mode in
      let start = record app {
        pending_block_restore_after_wake =
            pending_wake_restore_for_tray_power_action previous action;
      } in
      let (r, app', env') = set_mode sys allow tray start env in
      act_in_allow_mode-AppInv previous action start r app' env'
        (set_mode-Switched sys allow tray start env h.0) (pending_for_action-Owed previous action)

  finish_restore-AppInv :
      (action : PowerAction) (app : Application W) (r : Result Bool String) (c : BlockerCoordinator)
      (env : Env W)
      → IsConsistent c
      → AppInv
          (finish_restore sys action (clear_pending_block_restore_after_wake app) (r, c, env)).0
  unfolding finish_restore with_mode clear_pending_block_restore_after_wake
  finish_restore-AppInv action app (ok _) c env h = (h, tt)
  finish_restore-AppInv action app (err _) c env h = (h, tt)

  restore_pending-AppInv :
      (due : Option PowerAction) (app : Application W) (env : Env W)
      → AppInv app
      → AppInv (restore_pending sys due app env).0
  unfolding restore_pending
  restore_pending-AppInv none app env h = h
  restore_pending-AppInv (some action) app env h =
      let (r, c, env') = Coordinator.set_mode sys block app.blocker_coordinator env in
      finish_restore-AppInv action app r c env'
        (set_mode-IsConsistent sys block app.blocker_coordinator env h.0)

  renewal :
      (c : BlockerCoordinator) (env : Env W)
      → IsConsistent c
      → let (r, c', env') = renew_sleep_requests_after_resume sys c env in
        IsConsistent c' × (c'.mode ≡ c.mode)
  unfolding operate renew_sleep_requests_after_resume
  renewal c env h = ground (arith, operate-IsConsistent sys resumes c env h)

  mark-Owed :
      (pending : Option PendingWakeRestore) (mode : BlockerMode)
      → Owed pending mode
      → Owed (mark_pending pending) mode
  unfolding mark_pending mark_system_suspended pending_action
  mark-Owed pending mode h = ground arith

  pub handle_power_broadcast-AppInv :
      (event : PowerBroadcastEvent) (app : Application W) (env : Env W)
      → AppInv app
      → AppInv (handle_power_broadcast sys event app env).0
  unfolding handle_power_broadcast restore_block_after_wake_if_needed with_mode
  handle_power_broadcast-AppInv suspend app env h =
      (h.0, mark-Owed app.pending_block_restore_after_wake app.blocker_coordinator.mode h.1)
  handle_power_broadcast-AppInv resume app env h =
      let (r, c, env') = renew_sleep_requests_after_resume sys app.blocker_coordinator env in
      let (consistent, same) = renewal app.blocker_coordinator env h.0 in
      restore_pending-AppInv
        (pending_wake_restore_ready_for_resume app.pending_block_restore_after_wake)
        (with_mode c app) _
        (consistent, subst (Owed app.pending_block_restore_after_wake) (sym same) h.1)
