-- ===== src/App/Actions.antt =====
-- How a power action of the tray ends (src/main.rs).
use wardoff.Prelude.{
  Bool, false, ◌&&◌, none, some, String, Result, ok, err, is_ok, ◌≡◌, refl, ◌∙◌, ◌⊎◌, inl, inr,
  arith, if◌then◌else◌,
}
use wardoff.Logger.Journal.{Env, tray}
use wardoff.Blocker.Windows.{Windows}
use wardoff.Blocker.Coordinator.{BlockerMode, block, allow, same_mode}
use wardoff.Blocker.Power.{PowerAction, execute_power_action}
use wardoff.Blocker.Coordinator.Consistency.{IsConsistent}
use wardoff.Policy.{pending_suspend, pending_wake_restore_for_tray_power_action}
use wardoff.App.{Application, Outcome, set_mode, clear_pending_block_restore_after_wake}
use wardoff.App.Invariant.{sleeps}
use wardoff.App.Modes.{Switched, set_mode-Switched}
use wardoff.App.Power.{recover_mode, issue_action, act_in_allow_mode, run_power_action}

owed_after :
    (previous : BlockerMode) (action : PowerAction) (succeeded : Bool)
    → (if succeeded then pending_wake_restore_for_tray_power_action previous action else none) ≡ (
        if succeeded && (same_mode previous block && sleeps action)
        then some (pending_suspend action)
        else none)
unfolding pending_wake_restore_for_tray_power_action
owed_after previous action succeeded = ground arith

module _ {W : Type 0} (sys : Windows W) where
  -- What a power action leaves, started in `previous` mode.
  abbrev pub Acted : BlockerMode → PowerAction → Outcome W → Type 0
  Acted previous action (r, app, env) =
      IsConsistent app.blocker_coordinator
      × ((is_ok r ≡ false) ⊎ (app.blocker_coordinator.mode ≡ allow))
      × (app.pending_block_restore_after_wake
          ≡ (if is_ok r then pending_wake_restore_for_tray_power_action previous action else none))

  recover_mode-Acted :
      (previous : BlockerMode) (action : PowerAction) (m : String) (app : Application W)
      (env : Env W)
      → IsConsistent app.blocker_coordinator
      → Acted previous action
          (recover_mode sys previous action m (clear_pending_block_restore_after_wake app) env)
  unfolding recover_mode clear_pending_block_restore_after_wake
  recover_mode-Acted block action m app env h =
      let s = set_mode-Switched sys block tray (clear_pending_block_restore_after_wake app) env h in
      (s.0, inl refl, s.4)
  recover_mode-Acted allow action m app env h = (h, inl refl, refl)

  issue_action-Acted :
      (previous : BlockerMode) (action : PowerAction) (app : Application W)
      (r : Result (Unit {0}) String) (env : Env W)
      → IsConsistent app.blocker_coordinator
      → app.blocker_coordinator.mode ≡ allow
      → app.pending_block_restore_after_wake
        ≡ pending_wake_restore_for_tray_power_action previous action
      → Acted previous action (issue_action sys previous action app r env)
  unfolding issue_action
  issue_action-Acted previous action app (ok _) env h m p = (h, inr m, p)
  issue_action-Acted previous action app (err e) env h m p =
      recover_mode-Acted previous action e app _ h

  act_in_allow_mode-Acted :
      (previous : BlockerMode) (action : PowerAction) (start : Application W)
      (r : Result (Unit {0}) String) (app : Application W) (env : Env W)
      → Switched sys allow start (r, app, env)
      → start.pending_block_restore_after_wake
        ≡ pending_wake_restore_for_tray_power_action previous action
      → Acted previous action (act_in_allow_mode sys previous action (r, app, env))
  unfolding act_in_allow_mode clear_pending_block_restore_after_wake
  act_in_allow_mode-Acted previous action start (ok _) app env s p =
      let (r, w) = execute_power_action sys action env.world in
      issue_action-Acted previous action app r (record env { world = w }) s.0 (ground (arith, s))
        (s.4 ∙ p)
  act_in_allow_mode-Acted previous action start (err e) app env s p = (s.0, inl refl, refl)

  pub run_power_action-Acted :
      (action : PowerAction) (app : Application W) (env : Env W)
      → IsConsistent app.blocker_coordinator
      → Acted app.blocker_coordinator.mode action (run_power_action sys action app env)
  unfolding run_power_action
  run_power_action-Acted action app env h =
      let previous = app.blocker_coordinator.mode in
      let start = record app {
        pending_block_restore_after_wake =
            pending_wake_restore_for_tray_power_action previous action;
      } in
      let (r, app', env') = set_mode sys allow tray start env in
      act_in_allow_mode-Acted previous action start r app' env'
        (set_mode-Switched sys allow tray start env h) refl

  -- From a consistent coordinator, which stays consistent: a power action that succeeds ends in Allow
  -- mode, and owes a restore of Block mode exactly if it was a sleep or a hibernation asked for in
  -- Block mode; one that fails owes nothing.
  pub power_action_outcome :
      (action : PowerAction) (app : Application W) (env : Env W)
      → IsConsistent app.blocker_coordinator
      → let (r, app', env') = run_power_action sys action app env in
        let previous = app.blocker_coordinator.mode in
        IsConsistent app'.blocker_coordinator
        × ((is_ok r ≡ false) ⊎ (app'.blocker_coordinator.mode ≡ allow))
        × (app'.pending_block_restore_after_wake ≡ (
            if is_ok r && (same_mode previous block && sleeps action)
            then some (pending_suspend action)
            else none))
  power_action_outcome action app env h =
      let (consistent, ended, owed) = run_power_action-Acted action app env h in
      (
        consistent,
        ended,
        owed
            ∙ owed_after app.blocker_coordinator.mode action
                (is_ok (run_power_action sys action app env).0),
      )
