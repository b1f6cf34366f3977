-- ===== src/Tests/Blockers.antt =====
-- The layers of src/blocker/ at work.
use wardoff.Prelude.{
  inr, some, Bool, true, false, is_ok, List, [], ◌∷◌, ◌≡◌, refl, ◌⊎◌, if◌then◌else◌,
}
use wardoff.Blocker.PowerRequests
use wardoff.Blocker.PowerRequests.Outcome.{IsSettled, default-IsSettled, activate_all_or_nothing}
use wardoff.Blocker.PowerRequests.Ownership as Own
use wardoff.Blocker.Remote
use wardoff.Blocker.Remote.Polling
use wardoff.Blocker.Update.Worker as Update
use wardoff.Blocker.Update.Lifecycle as UpdateLife
use wardoff.Blocker.Update.Restore.{IsObedient, fresh}
use wardoff.Blocker.Update.Restore
use wardoff.Blocker.Local
use wardoff.Blocker.Local.Lifecycle as LocalLife
use wardoff.Tests.{power, machine, here}

activate_all_or_nothing_example :
    let (r, p, w) = PowerRequests.activate power PowerRequests.default true in
    IsSettled p
    × (is_ok r ≡ PowerRequests.is_active p)
    × (p ≡ (if PowerRequests.is_active p then p else PowerRequests.default))
activate_all_or_nothing_example =
    activate_all_or_nothing power PowerRequests.default true default-IsSettled

ledger-operate_all_example :
    let (succeeded, p, traced_world) =
      Own.operate_all
        (Own.traced power)
        (Own.activates ∷ Own.renews ∷ Own.releases ∷ [])
        PowerRequests.default
        (true, []) in
    (Own.ledger traced_world.1 ≡ Own.belief p)
    × ((succeeded ≡ false) ⊎ (Own.unclosed traced_world.1 ≡ []))
ledger-operate_all_example =
    Own.ledger-operate_all power (Own.activates ∷ Own.renews ∷ Own.releases ∷ []) true

abbrev remote_history : List Polling.Event
remote_history = Polling.activates ∷ Polling.turns ∷ Polling.cleans_up ∷ []

remote_run_safe_example :
    let (b, env) = Polling.run (machine true) remote_history Remote.default here in
    ((b.active_state ≡ false) ⊎ (Polling.phase_of b.worker ≡ Remote.polling))
    × ((Remote.deactivate (machine true) b env).0 ≡ Remote.default)
remote_run_safe_example = Polling.remote_run_safe (machine true) remote_history here

abbrev local_history : List LocalLife.Event
local_history = LocalLife.activates ∷ LocalLife.turns ∷ []

local_run_safe_example :
    let (b, env) = LocalLife.run (machine true) local_history Local.default here in
    ((b.active_state ≡ false) ⊎ (LocalLife.is_processing b.worker ≡ true))
    × ((Local.deactivate (machine true) b env).0 ≡ Local.default)
local_run_safe_example = LocalLife.local_run_safe (machine true) local_history here

abbrev update_history : List UpdateLife.Event
update_history = UpdateLife.activates ∷ UpdateLife.turns ∷ []

update_run_safe_example :
    let (b, env) = UpdateLife.run (machine true) update_history Update.default here in
    ((b.active_state ≡ false) ⊎ (UpdateLife.phase_of b.worker ≡ Update.polling))
    × UpdateLife.IsIdle (Update.deactivate (machine true) b env).0
update_run_safe_example = UpdateLife.update_run_safe (machine true) update_history here

abbrev task_state : Bool → Bool
task_state w = w

abbrev switch_task : Bool → Bool → Bool
switch_task on w = on

machine-IsObedient : IsObedient (machine true) task_state
machine-IsObedient = record {
  initialized = λ w. refl;
  initialize_keeps = λ w. refl;
  uninitialize_keeps = λ w. refl;
  opened = λ w. refl;
  open_keeps = λ w. refl;
  found = λ w. refl;
  get_keeps = λ w. refl;
  reads = λ w. refl;
  read_keeps = λ w. refl;
  accepts = λ on w. refl;
  writes = λ on w. refl;
}

abbrev task_history : List Restore.Event
task_history = Restore.switched true ∷ Restore.turns ∷ []

restores_original_example :
    let (b, env) =
      Restore.run (machine true) switch_task (Restore.turns ∷ task_history) fresh here in
    (task_state (Update.worker_step (machine true) b env).1.world ≡ false)
    × (task_state (Update.deactivate (machine true) b env).1.world
        ≡ (if task_state here.world then true else task_state env.world))
restores_original_example =
    Restore.restores_original (machine true) task_state switch_task machine-IsObedient task_history
      here

abbrev stopping : Remote.RemoteShutdownBlocker
stopping = record {
  worker = some (record { phase = Remote.polling; stop_queued = true });
  active_state = true;
}

stopping-Inv : Polling.Inv stopping
stopping-Inv = record { active_polls = inr refl }

worker_step-finishes_example :
    let (b, env) = Remote.worker_step (machine true) stopping here in
    let (b', env') = Remote.worker_step (machine true) b env in
    (Polling.phase_of b'.worker ≡ Remote.finished) × (b'.active_state ≡ false)
worker_step-finishes_example =
    Polling.worker_step-finishes (machine true) stopping here refl stopping-Inv
