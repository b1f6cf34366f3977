-- ===== src/Tests/Running.antt =====
-- The application of src/main.rs at work.
use wardoff.Prelude.{
  ◌&&◌, is_some, Bool, true, false, none, some, ok, is_ok, List, [], ◌∷◌, ◌≡◌, refl, ◌⊎◌,
  if◌then◌else◌, ◌==◌,
}
use wardoff.Logger.Journal.{Env, tray}
use wardoff.Blocker.ShutdownBlocker.{PowerBroadcastEvent, handle_query_end_session}
use wardoff.Blocker.ShutdownBlocker
use wardoff.Blocker.Abort
use wardoff.Blocker.Coordinator.{BlockerMode, block, allow, same_mode, idle, create, layer_status}
use wardoff.Blocker.Power.{PowerAction, execute_power_action}
use wardoff.Blocker.Coordinator
use wardoff.Blocker.Coordinator.Consistency.{OthersIdle}
use wardoff.Cli.{StatusState}
use wardoff.Policy.{PipeMode, IpcRequest, blocker_mode, headless, RuntimeOptions}
use wardoff.App.{Application, set_mode, settle_switch, settle_tray}
use wardoff.App.Modes.{set_mode_outcome}
use wardoff.App.Power.{run_power_action, act_in_allow_mode, issue_action}
use wardoff.App.Requests.{TrayAction, handle_ipc_request, status_output}
use wardoff.Blocker.Coordinator.Consistency.{IsConsistent}
use wardoff.Policy.{pending_suspend}
use wardoff.App.Lifecycle.{new, bootstrap, spawn_surface}
use wardoff.App.Invariant.{Owed, AppInv}
use wardoff.App.History.{Event, requested, chosen, broadcast, handle_all}
use wardoff.App.Promises.{all_off, application_keeps_promise, status_truthful}
use wardoff.App.Actions.{power_action_outcome}
use wardoff.App.Wake.{
  wake, is_accepted, wake_restores_block, second_action_forgets_restore, chosen_mode_survives_wake,
}
use wardoff.Tests.{machine, here, scheduled, services}
use wardoff.Tests.Coordination.{blocking, blocking-IsConsistent}

abbrev app : Application Bool
app = new blocking none

abbrev allowing : Application Bool
allowing = new idle none

abbrev options : RuntimeOptions
options = record { initial_mode = allow; tray_surface = headless }

abbrev started : Env Bool
started = (bootstrap (machine true) scheduled services options here).1

starts : bootstrap (machine true) scheduled services options here ≡ (ok allowing, started)
unfolding bootstrap create Coordinator.set_mode spawn_surface new
starts = refl

abbrev events : List Event
events =
    chosen TrayAction.block
    ∷ chosen TrayAction.sleep
    ∷ broadcast PowerBroadcastEvent.resume
    ∷ requested 7 (IpcRequest.set_mode PipeMode.allow)
    ∷ []

application_keeps_promise_example :
    let (app', env) = handle_all (machine true) scheduled events allowing started in
    let c = app'.blocker_coordinator in
    ((handle_query_end_session c.shutdown_blocker 0 env).0
      ≡ (if same_mode c.mode block then 0 else 1))
    × ((c.mode ≡ block) ⊎ OthersIdle c)
    × Owed app'.pending_block_restore_after_wake c.mode
application_keeps_promise_example =
    application_keeps_promise (machine true) scheduled services options events 0 here started
      allowing starts

app-AppInv : AppInv app
unfolding new
app-AppInv = (blocking-IsConsistent, tt)

status_truthful_example :
    let answer = (handle_query_end_session app.blocker_coordinator.shutdown_blocker 0 here).0 in
    let layers = layer_status app.blocker_coordinator in
    let status = status_output (machine true) scheduled 60 app here in
    (status.layers ≡ some layers)
    × (status.state ≡ (if answer == 0 then StatusState.block else StatusState.allow))
    × (layers.shutdown ≡ (answer == 0))
    × ((answer ≡ 0) ⊎ (layers ≡ all_off))
status_truthful_example = status_truthful (machine true) scheduled 60 0 app here app-AppInv

set_mode_outcome_example :
    let (r, app', env) = set_mode (machine true) allow tray app here in
    IsConsistent app'.blocker_coordinator
    × ((is_ok r ≡ false) ⊎ (app'.blocker_coordinator.mode ≡ allow))
    × ((is_ok r ≡ same_mode app'.blocker_coordinator.mode allow)
        ⊎ (is_some app.tray_service ≡ true))
    × (app'.tray_service ≡ app.tray_service)
    × (app'.pending_block_restore_after_wake ≡ app.pending_block_restore_after_wake)
    × (app'.forced_shutdown_cleanup_completed ≡ app.forced_shutdown_cleanup_completed)
set_mode_outcome_example = set_mode_outcome (machine true) allow tray app here app-AppInv.0

power_action_outcome_example :
    let (r, app', env) = run_power_action (machine true) PowerAction.sleep app here in
    IsConsistent app'.blocker_coordinator
    × ((is_ok r ≡ false) ⊎ (app'.blocker_coordinator.mode ≡ allow))
    × (app'.pending_block_restore_after_wake ≡ (
        if is_ok r && (same_mode app.blocker_coordinator.mode block && true)
        then some (pending_suspend PowerAction.sleep)
        else none))
power_action_outcome_example =
    power_action_outcome (machine true) PowerAction.sleep app here app-AppInv.0

chosen_mode_survives_wake_example :
    let (response, app₁, env₁) =
      handle_ipc_request (machine true) scheduled 9 (IpcRequest.set_mode PipeMode.allow) app here in
    ((wake (machine true) true app₁ env₁).0.blocker_coordinator.mode
      ≡ app₁.blocker_coordinator.mode)
    × ((is_accepted response ≡ false)
        ⊎ (app₁.blocker_coordinator.mode ≡ blocker_mode PipeMode.allow))
chosen_mode_survives_wake_example =
    chosen_mode_survives_wake (machine true) scheduled true 9 PipeMode.allow app here app-AppInv.0

abbrev asleep : Application Bool
asleep = (run_power_action (machine true) PowerAction.sleep app here).1

abbrev asleep_env : Env Bool
asleep_env = (run_power_action (machine true) PowerAction.sleep app here).2

falls_asleep :
    run_power_action (machine true) PowerAction.sleep app here ≡ (ok tt, asleep, asleep_env)
unfolding run_power_action act_in_allow_mode set_mode new settle_switch Coordinator.set_mode
    Coordinator.activate_allow_mode ShutdownBlocker.deactivate settle_tray issue_action
    execute_power_action Abort.enable_shutdown_privilege
falls_asleep = refl

abbrev slept : Application Bool
slept = (wake (machine true) false asleep asleep_env).0

wake_restores_block_example :
    (asleep.blocker_coordinator.mode ≡ allow)
    × (slept.pending_block_restore_after_wake ≡ none)
    × (same_mode slept.blocker_coordinator.mode block
        ≡ is_ok (Coordinator.set_mode (machine true) block asleep.blocker_coordinator asleep_env).0)
unfolding new
wake_restores_block_example =
    wake_restores_block (machine true) false PowerAction.sleep app asleep here asleep_env
      app-AppInv.0 refl refl falls_asleep

abbrev twice : Application Bool
twice = (run_power_action (machine true) PowerAction.hibernate asleep asleep_env).1

abbrev twice_env : Env Bool
twice_env = (run_power_action (machine true) PowerAction.hibernate asleep asleep_env).2

hibernates_next :
    run_power_action (machine true) PowerAction.hibernate asleep asleep_env
    ≡ (ok tt, twice, twice_env)
unfolding run_power_action act_in_allow_mode set_mode new settle_switch Coordinator.set_mode
    Coordinator.activate_allow_mode ShutdownBlocker.deactivate settle_tray issue_action
    execute_power_action Abort.enable_shutdown_privilege
hibernates_next = refl

second_action_forgets_restore_example :
    (wake (machine true) true twice twice_env).0.blocker_coordinator.mode ≡ allow
second_action_forgets_restore_example =
    second_action_forgets_restore (machine true) true PowerAction.sleep PowerAction.hibernate app
      asleep twice here asleep_env twice_env app-AppInv.0 falls_asleep hibernates_next
