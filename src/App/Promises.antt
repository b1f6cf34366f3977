-- ===== src/App/Promises.antt =====
-- What a running application of src/main.rs promises, from its start to its end.
use wardoff.Prelude.{
  ◌==◌, ℕ, true, false, some, ok, err, List, ◌≡◌, subst, ◌⊎◌, arith, if◌then◌else◌,
}
use wardoff.Logger.Journal.{Env, Attempt, on_world}
use wardoff.Blocker.Windows.{Windows}
use wardoff.Blocker.ShutdownBlocker.{handle_query_end_session}
use wardoff.Blocker.Coordinator.{
  BlockerMode, block, BlockerCoordinator, same_mode, idle, create, LayerStatus, layer_status,
}
use wardoff.Blocker.Coordinator.Consistency.{IsConsistent, OthersIdle, idle-IsConsistent}
use wardoff.Blocker.Coordinator.History.{query_answer, set_mode-IsConsistent, set_mode-mode}
use wardoff.Blocker.PowerRequests
use wardoff.Blocker.SleepBlocker
use wardoff.Blocker.ShutdownBlocker
use wardoff.Blocker.Remote
use wardoff.Blocker.Update.Worker as Update
use wardoff.Blocker.Local
use wardoff.Cli.{StatusState, active_status}
use wardoff.Policy.{RuntimeOptions}
use wardoff.App.{Application, Autostart}
use wardoff.App.Requests.{status_output}
use wardoff.App.Lifecycle.{Services, new, bootstrap, spawn_surface, spawned}
use wardoff.App.Invariant.{Owed, AppInv}
use wardoff.App.History.{Event, handle_all, handle_all-AppInv}

abbrev pub all_off : LayerStatus
all_off = record {
  shutdown = false;
  local_shutdown = false;
  update = false;
  remote = false;
  sleep = false;
}

-- What a value made from an attempt satisfies, where there is one.
abbrev Holds : {W A : Type 0} → (A → Type 0) → Attempt W A → Type 0
Holds P (ok a, env) = P a
Holds P (err e, env) = Unit {0}

abbrev CreatedIn : BlockerMode → BlockerCoordinator → Type 0
CreatedIn mode c = IsConsistent c × (same_mode c.mode mode ≡ true)

abbrev StartedIn : {W : Type 0} → RuntimeOptions → Application W → Type 0
StartedIn options app =
    AppInv app × (same_mode app.blocker_coordinator.mode options.initial_mode ≡ true)

module _ {W : Type 0} (sys : Windows W) where
  create-CreatedIn :
      (mode : BlockerMode) (env : Env W) → Holds (CreatedIn mode) (create sys mode env)
  unfolding create
  create-CreatedIn mode env = ground (
    arith,
    set_mode-IsConsistent sys mode idle env idle-IsConsistent,
    set_mode-mode sys mode idle env idle-IsConsistent,
  )

module _ {W : Type 0} (sys : Windows W) (autostart : Autostart W) (services : Services W) where
  bootstrap-StartedIn :
      (options : RuntimeOptions) (env : Env W)
      → Holds (StartedIn options) (bootstrap sys autostart services options env)
  unfolding bootstrap spawn_surface spawned new
  bootstrap-StartedIn options env =
      let (r, env') = on_world services.initialize_structured_logging env in
      ground (arith, create-CreatedIn sys options.initial_mode env')

  started-AppInv :
      (options : RuntimeOptions) (env started : Env W) (app : Application W)
      → bootstrap sys autostart services options env ≡ (ok app, started)
      → AppInv app
  started-AppInv options env started app h =
      (subst (Holds (StartedIn options)) h (bootstrap-StartedIn options env)).0

  -- From a start that succeeds, after any requests, tray actions, suspends, resumes and worker turns,
  -- and whatever Windows answers: a shutdown query is refused exactly in Block mode, in Allow mode no
  -- layer keeps a worker or a power request, and a restore of Block mode is owed only in Allow mode,
  -- to a sleep or a hibernation.
  pub application_keeps_promise :
      (options : RuntimeOptions) (events : List Event) (lparam : ℕ) (env started : Env W)
      (app : Application W)
      → bootstrap sys autostart services options env ≡ (ok app, started)
      → let (app', env') = handle_all sys autostart events app started in
        let c = app'.blocker_coordinator in
        ((handle_query_end_session c.shutdown_blocker lparam env').0
          ≡ (if same_mode c.mode block then 0 else 1))
        × ((c.mode ≡ block) ⊎ OthersIdle c)
        × Owed app'.pending_block_restore_after_wake c.mode
  application_keeps_promise options events lparam env started app h =
      let (app', env') = handle_all sys autostart events app started in
      let (consistent, owed) =
        handle_all-AppInv sys autostart events app started
          (started-AppInv options env started app h) in
      (
        query_answer sys app'.blocker_coordinator lparam env' consistent,
        consistent.allow_idle,
        owed,
      )

module _ {W : Type 0} (sys : Windows W) (autostart : Autostart W) where
  -- In every state that satisfies the invariant of the application, the status answer is truthful: it
  -- carries the layers, says Block exactly when a shutdown query is refused, reports Layer 1 active
  -- exactly then, and reports every layer inactive when a query is agreed to.
  pub status_truthful :
      (uptime : ℕ) (lparam : ℕ) (app : Application W) (env : Env W)
      → AppInv app
      → let answer =
          (handle_query_end_session app.blocker_coordinator.shutdown_blocker lparam env).0 in
        let layers = layer_status app.blocker_coordinator in
        let status = status_output sys autostart uptime app env in
        (status.layers ≡ some layers)
        × (status.state ≡ (if answer == 0 then StatusState.block else StatusState.allow))
        × (layers.shutdown ≡ (answer == 0))
        × ((answer ≡ 0) ⊎ (layers ≡ all_off))
  unfolding status_output active_status layer_status handle_query_end_session
      ShutdownBlocker.is_active Local.is_active Update.is_active Remote.is_active
      SleepBlocker.is_active PowerRequests.is_active SleepBlocker.default Local.default
      Remote.default PowerRequests.default
  status_truthful uptime lparam app env h = ground (arith, h)
