-- ===== src/Blocker/Update/Restore.antt =====
-- What src/blocker/update.rs leaves of the scheduled task, on a Task Scheduler that does as told.
use wardoff.Prelude.{
  ◌⊎◌, inr, inl, Bool, true, false, some, ok, List, [], ◌∷◌, ◌≡◌, refl, arith, if◌then◌else◌,
}
use wardoff.Logger.Journal.{Env}
use wardoff.Blocker.Windows.{Windows}
use wardoff.Blocker.Update.{
  RestoreState, default_restore, lookup_reboot_task, ensure_reboot_task_disabled,
  restore_task_if_needed, task, log_update,
}
use wardoff.Blocker.Update.Worker.{starting, polling, UpdateRebootBlocker, worker_step, deactivate}

-- The documented behaviour of Task Scheduler where the task exists and no call is refused: `enabled`
-- is the task's state, which only `set_task_enabled` changes.
pub record IsObedient {W : Type 0} (sys : Windows W) (enabled : W → Bool) : Type 0 where
  pub initialized : (w : W) → (sys.co_initialize w).0 ≡ ok tt
  pub initialize_keeps : (w : W) → enabled (sys.co_initialize w).1 ≡ enabled w
  pub uninitialize_keeps : (w : W) → enabled (sys.co_uninitialize w) ≡ enabled w
  pub opened : (w : W) → (sys.open_folder w).0 ≡ ok tt
  pub open_keeps : (w : W) → enabled (sys.open_folder w).1 ≡ enabled w
  pub found : (w : W) → (sys.get_task w).0 ≡ ok tt
  pub get_keeps : (w : W) → enabled (sys.get_task w).1 ≡ enabled w
  pub reads : (w : W) → (sys.task_enabled w).0 ≡ ok (enabled w)
  pub read_keeps : (w : W) → enabled (sys.task_enabled w).1 ≡ enabled w
  pub accepts : (b : Bool) (w : W) → (sys.set_task_enabled b w).0 ≡ ok tt
  pub writes : (b : Bool) (w : W) → enabled (sys.set_task_enabled b w).1 ≡ b

abbrev pub Watching : Bool → Bool → UpdateRebootBlocker → Type 0
Watching on stopping b =
    (b.worker ≡ some (record { phase = polling; stop_queued = stopping }))
    × (b.active_state ≡ true)
    × (b.restore_state ≡ record { original_state_recorded = true; restore_enabled_on_exit = on })

abbrev pub fresh : UpdateRebootBlocker
fresh = record {
  worker = some (record { phase = starting; stop_queued = false });
  active_state = false;
  restore_state = default_restore;
}

module _ {W : Type 0} (sys : Windows W) (enabled : W → Bool)
    (obedient : IsObedient sys enabled) where
  open obedient use {
    initialized, initialize_keeps, uninitialize_keeps, opened, open_keeps, found, get_keeps, reads,
    read_keeps, accepts, writes,
  }

  lookup_finds :
      (w : W)
      → ((lookup_reboot_task sys w).0 ≡ ok task)
        × (enabled (lookup_reboot_task sys w).1 ≡ enabled w)
  unfolding lookup_reboot_task
  lookup_finds w =
      let w' = (sys.open_folder w).1 in
      ground (arith, opened w, open_keeps w, found w', get_keeps w')

  abbrev recorded : RestoreState → Bool → RestoreState
  recorded s on =
      if s.original_state_recorded
      then s
      else record { original_state_recorded = true; restore_enabled_on_exit = on }

  ensure_disables :
      (s : RestoreState) (env : Env W)
      → s.original_state_recorded ≡ true ⊎ (s ≡ default_restore)
      → let (r, s', env') = ensure_reboot_task_disabled sys s env in
        (r ≡ ok true) × (s' ≡ recorded s (enabled env.world)) × (enabled env'.world ≡ false)
  unfolding ensure_reboot_task_disabled log_update
  ensure_disables s env h =
      let w = (lookup_reboot_task sys env.world).1 in
      let w' = (sys.task_enabled w).1 in
      ground
        (arith, lookup_finds env.world, reads w, read_keeps w, accepts false w', writes false w')

  restores :
      (s : RestoreState) (env : Env W)
      → enabled (restore_task_if_needed sys s env).world
        ≡ (if s.restore_enabled_on_exit then true else enabled env.world)
  unfolding restore_task_if_needed log_update
  restores s env =
      let w = (lookup_reboot_task sys env.world).1 in
      let w' = (sys.task_enabled w).1 in
      ground (arith, lookup_finds env.world, reads w, read_keeps w, accepts true w', writes true w')

  first_turn :
      (env : Env W)
      → let (b, env') = worker_step sys fresh env in
        Watching (enabled env.world) false b × (enabled env'.world ≡ false)
  unfolding worker_step log_update
  first_turn env =
      let w = (sys.co_initialize env.world).1 in
      ground (
        arith,
        initialized env.world,
        initialize_keeps env.world,
        ensure_disables default_restore (record env { world = w }) (inr refl),
      )

  later_turn :
      (on : Bool) (b : UpdateRebootBlocker) (env : Env W)
      → Watching on false b
      → let (b', env') = worker_step sys b env in
        Watching on false b' × (enabled env'.world ≡ false)
  unfolding worker_step log_update
  later_turn on b env h = ground (arith, ensure_disables b.restore_state env (inl (ground arith)))

  last_turns :
      (on : Bool) (b : UpdateRebootBlocker) (env : Env W)
      → Watching on false b
      → enabled (deactivate sys b env).1.world ≡ (if on then true else enabled env.world)
  unfolding deactivate worker_step log_update
  last_turns on b env h = ground (
    arith,
    restores b.restore_state env,
    uninitialize_keeps (restore_task_if_needed sys b.restore_state env).world,
  )

-- While the layer runs: its worker takes a turn, or something else switches the task.
pub data Event : Type 0 where
  turns : Event
  switched : Bool → Event

module _ {W : Type 0} (sys : Windows W) (switch : Bool → W → W) where
  unfoldable pub run : List Event → UpdateRebootBlocker → Env W → UpdateRebootBlocker × Env W
  run [] b env = (b, env)
  run (turns ∷ es) b env = let (b', env') = worker_step sys b env in run es b' env'
  run (switched on ∷ es) b env = run es b (record env { world = switch on env.world })

module _ {W : Type 0} (sys : Windows W) (enabled : W → Bool) (switch : Bool → W → W)
    (obedient : IsObedient sys enabled) where
  run-Watching :
      (on : Bool) (es : List Event) (b : UpdateRebootBlocker) (env : Env W)
      → Watching on false b
      → Watching on false (run sys switch es b env).0
  unfolding run
  run-Watching on [] b env h = h
  run-Watching on (turns ∷ es) b env h =
      let (b', env') = worker_step sys b env in
      run-Watching on es b' env' (later_turn sys enabled obedient on b env h).0
  run-Watching on (switched to ∷ es) b env h =
      run-Watching on es b (record env { world = switch to env.world }) h

  -- On an obedient Task Scheduler, from the start of the worker on and whatever switches the task in
  -- between: every turn of the worker ends with the task disabled, and `deactivate` leaves the task
  -- enabled if it was enabled at the start, and otherwise as it finds it.
  pub restores_original :
      (es : List Event) (env : Env W)
      → let (b, env') = run sys switch (turns ∷ es) fresh env in
        (enabled (worker_step sys b env').1.world ≡ false)
        × (enabled (deactivate sys b env').1.world
            ≡ (if enabled env.world then true else enabled env'.world))
  unfolding run
  restores_original es env =
      let (b₁, env₁) = worker_step sys fresh env in
      let (b, env') = run sys switch es b₁ env₁ in
      let watching =
        run-Watching (enabled env.world) es b₁ env₁ (first_turn sys enabled obedient env).0 in
      (
        (later_turn sys enabled obedient (enabled env.world) b env' watching).1,
        last_turns sys enabled obedient (enabled env.world) b env' watching,
      )
