-- ===== src/Autostart/RoundTrip.antt =====
-- What `is_enabled` of src/autostart.rs answers after `set_enabled`.
use wardoff.Prelude.{
  Bool, true, false, Option, none, some, String, Result, ok, err, is_ok, and_then, List, [], ◌∷◌,
  ◌≡◌, ◌⊎◌, inl, inr, refl, arith, ◌∙◌, ap,
}
use wardoff.Logger.Journal.{Env, Attempt, on_world, log_event}
use wardoff.Autostart.{
  Machine, is_enabled, set_enabled, ensure_process_is_elevated, after_elevation, prepare,
  update_prepared, update_task, log_outcome,
}
use wardoff.Autostart.Task.{
  TaskError, Setting, settings_enabled, Scheduler, run_task_scheduler, within_apartment,
  task_enabled, found, removed, lookup_autostart_task, enabled_of, configure, definition,
  register_autostart_task, remove_autostart_task,
}

-- Whether the task will be enabled, after a call on its definition.
abbrev pub draft_after : Setting → Bool → Bool
draft_after (settings_enabled enabled) draft = enabled
draft_after _ draft = draft

abbrev draft_of : List Setting → Bool → Bool
draft_of [] draft = draft
draft_of (setting ∷ rest) draft = draft_of rest (draft_after setting draft)

definition-draft :
    {W : Type 0} (scheduler : Scheduler W)
    (user_id executable_path working_directory boundary : String) (draft : Bool)
    → draft_of (definition scheduler user_id executable_path working_directory boundary) draft
      ≡ true
definition-draft scheduler user_id executable_path working_directory boundary draft = ground arith

-- The task that `set_enabled` leaves, and what a reading says of it.
abbrev wanted : Bool → Option Bool
wanted true = some true
wanted false = none

abbrev said : Option Bool → Bool
said none = false
said (some enabled) = enabled

said-wanted : (enabled : Bool) → said (wanted enabled) ≡ enabled
said-wanted true = refl
said-wanted false = refl

ok_or_not : {A E : Type 0} (r : Result A E) → (is_ok r ≡ true) ⊎ (is_ok r ≡ false)
ok_or_not (ok a) = inl refl
ok_or_not (err e) = inr refl

module _ {W : Type 0} (machine : Machine W) (task : W → Option Bool) (draft : W → Bool)
    (set : (setting : Setting) (w : W)
      → draft (machine.scheduler.set setting w).1 ≡ draft_after setting (draft w))
    (root_draft : (w : W) → draft (machine.scheduler.get_root_folder w).1 ≡ draft w)
    (register : (w : W)
      → is_ok (machine.scheduler.register_task_definition w).0 ≡ true
      → task (machine.scheduler.register_task_definition w).1 ≡ some (draft w))
    (delete : (w : W)
      → is_ok (removed (machine.scheduler.delete_task w).0) ≡ true
      → task (machine.scheduler.delete_task w).1 ≡ none)
    (leave : (w : W) → task (machine.scheduler.uninitialize_com_apartment w) ≡ task w) where
  configure-draft :
      (steps : List Setting) (w : W)
      → is_ok (configure machine.scheduler steps w).0 ≡ true
      → draft (configure machine.scheduler steps w).1 ≡ draft_of steps (draft w)
  unfolding configure
  configure-draft [] w h = refl
  configure-draft (s ∷ rest) w h = grind (arith, set, configure-draft rest, h)

  -- The registration of a definition that is filled in.
  register_filled-task :
      (x : Result (Unit {0}) TaskError × W)
      → draft x.1 ≡ true
      → let (r, w') = and_then x λ _ w₂.
        and_then
          (machine.scheduler.get_root_folder w₂)
          λ _ w₃. machine.scheduler.register_task_definition w₃ in
        is_ok r ≡ true → task w' ≡ some true
  register_filled-task (ok _, w) d h = grind (arith, root_draft, register, d, h)
  register_filled-task (err e, w) d h = ground (arith, h)

  configured-task :
      (steps : List Setting) (w : W)
      → ((draft : Bool) → draft_of steps draft ≡ true)
      → let (r, w') = and_then (configure machine.scheduler steps w) λ _ w₂.
        and_then
          (machine.scheduler.get_root_folder w₂)
          λ _ w₃. machine.scheduler.register_task_definition w₃ in
        is_ok r ≡ true → task w' ≡ some true
  configured-task steps w d h = elim (ok_or_not (configure machine.scheduler steps w).0) [
    | inl good ↦
        register_filled-task (configure machine.scheduler steps w)
          (configure-draft steps w good ∙ d (draft w)) h
    | inr bad ↦ ground (arith, bad, h)
  ]

  register-task :
      (user_id executable_path working_directory : String) (w : W)
      → let (r, w') =
          register_autostart_task machine.scheduler user_id executable_path working_directory w in
        is_ok r ≡ true → task w' ≡ some true
  unfolding register_autostart_task
  register-task user_id executable_path working_directory w h =
      registered (machine.scheduler.new_task w) h
    where
      registered :
          (x : Result (Unit {0}) TaskError × W)
          → let (r, w') = and_then x λ _ w₁.
            and_then
              (configure machine.scheduler
                (definition machine.scheduler user_id executable_path working_directory
                  (machine.scheduler.local_time w₁))
                w₁)
              λ _ w₂.
                and_then
                  (machine.scheduler.get_root_folder w₂)
                  λ _ w₃. machine.scheduler.register_task_definition w₃ in
            is_ok r ≡ true → task w' ≡ some true
      registered (ok _, w₁) h =
          configured-task
            (definition machine.scheduler user_id executable_path working_directory
              (machine.scheduler.local_time w₁))
            w₁
            (definition-draft machine.scheduler user_id executable_path working_directory
              (machine.scheduler.local_time w₁))
            h
      registered (err e, w₁) h = ground (arith, h)

  remove-task :
      (w : W)
      → is_ok (remove_autostart_task machine.scheduler w).0 ≡ true
      → task (remove_autostart_task machine.scheduler w).1 ≡ none
  unfolding remove_autostart_task
  remove-task w h = grind (arith, delete, h)

  update_task-task :
      (enabled : Bool) (user_id executable_path working_directory : String) (w : W)
      → let (r, w') = update_task machine enabled user_id executable_path working_directory w in
        is_ok r ≡ true → task w' ≡ wanted enabled
  unfolding update_task run_task_scheduler within_apartment
  update_task-task true user_id executable_path working_directory w h =
      grind (arith, leave, register-task, h)
  update_task-task false user_id executable_path working_directory w h =
      grind (arith, leave, remove-task, h)

  update_prepared-task :
      (enabled : Bool) (x : Attempt W (String × String × String))
      → is_ok (update_prepared machine enabled x).0 ≡ true
      → task (update_prepared machine enabled x).1.world ≡ wanted enabled
  unfolding update_prepared log_outcome log_event
  update_prepared-task enabled (ok (user_id, executable_path, working_directory), env) h =
      grind (arith, update_task-task enabled, h)
  update_prepared-task enabled (err e, env) h = ground (arith, h)

  after_elevation-task :
      (enabled : Bool) (x : Attempt W (Unit {0}))
      → is_ok (after_elevation machine enabled x).0 ≡ true
      → task (after_elevation machine enabled x).1.world ≡ wanted enabled
  unfolding after_elevation
  after_elevation-task enabled (ok _, env) h =
      update_prepared-task enabled (on_world (prepare machine enabled) env) h
  after_elevation-task enabled (err e, env) h = ground (arith, h)

-- The reading, when COM and the folder answer.
module _ {W : Type 0} (machine : Machine W) (task : W → Option Bool)
    (spawn : (w : W) → let (r, w') = machine.scheduler.spawn w in r ≡ ok tt × task w' ≡ task w)
    (apartment : (w : W)
      → let (r, w') = machine.scheduler.initialize_com_apartment w in r ≡ ok tt × task w' ≡ task w)
    (connect : (w : W)
      → let (r, w') = machine.scheduler.connect_task_service w in r ≡ ok tt × task w' ≡ task w)
    (root : (w : W)
      → let (r, w') = machine.scheduler.get_root_folder w in r ≡ ok tt × task w' ≡ task w)
    (missing : (w : W) → task w ≡ none → found (machine.scheduler.get_task w).0 ≡ ok none)
    (present : (w : W) (enabled : Bool)
      → task w ≡ some enabled
      → let (r, w') = machine.scheduler.get_task w in
        r ≡ ok tt × (machine.scheduler.task_is_enabled w').0 ≡ ok enabled) where
  task_enabled-said :
      (w : W) (t : Option Bool) → task w ≡ t → (task_enabled machine.scheduler w).0 ≡ ok (said t)
  unfolding task_enabled lookup_autostart_task enabled_of found
  task_enabled-said w none h =
      let w₁ = (machine.scheduler.get_root_folder w).1 in
      ground (arith, root w, missing w₁ ((root w).1 ∙ h))
  task_enabled-said w (some enabled) h =
      let w₁ = (machine.scheduler.get_root_folder w).1 in
      ground (arith, root w, present w₁ enabled ((root w).1 ∙ h))

  is_enabled-said : (w : W) (t : Option Bool) → task w ≡ t → (is_enabled machine w).0 ≡ ok (said t)
  unfolding is_enabled run_task_scheduler within_apartment
  is_enabled-said w t h = grind (arith, spawn, apartment, connect, task_enabled-said, h)

-- After an update that ends well, the next reading says what was asked for, if the calls that lead to
-- the task then answer and leave it alone. The Task Scheduler keeps a registered task enabled as its
-- definition says, forgets a deleted one, and gives back what it keeps.
pub set_enabled-is_enabled :
    {W : Type 0} (machine : Machine W) (task : W → Option Bool) (draft : W → Bool)
    (set : (setting : Setting) (w : W)
      → draft (machine.scheduler.set setting w).1 ≡ draft_after setting (draft w))
    (root_draft : (w : W) → draft (machine.scheduler.get_root_folder w).1 ≡ draft w)
    (register : (w : W)
      → is_ok (machine.scheduler.register_task_definition w).0 ≡ true
      → task (machine.scheduler.register_task_definition w).1 ≡ some (draft w))
    (delete : (w : W)
      → is_ok (removed (machine.scheduler.delete_task w).0) ≡ true
      → task (machine.scheduler.delete_task w).1 ≡ none)
    (leave : (w : W) → task (machine.scheduler.uninitialize_com_apartment w) ≡ task w)
    (spawn : (w : W) → let (r, w') = machine.scheduler.spawn w in r ≡ ok tt × task w' ≡ task w)
    (apartment : (w : W)
      → let (r, w') = machine.scheduler.initialize_com_apartment w in r ≡ ok tt × task w' ≡ task w)
    (connect : (w : W)
      → let (r, w') = machine.scheduler.connect_task_service w in r ≡ ok tt × task w' ≡ task w)
    (root : (w : W)
      → let (r, w') = machine.scheduler.get_root_folder w in r ≡ ok tt × task w' ≡ task w)
    (missing : (w : W) → task w ≡ none → found (machine.scheduler.get_task w).0 ≡ ok none)
    (present : (w : W) (enabled : Bool)
      → task w ≡ some enabled
      → let (r, w') = machine.scheduler.get_task w in
        r ≡ ok tt × (machine.scheduler.task_is_enabled w').0 ≡ ok enabled)
    (enabled : Bool) (env : Env W)
    → is_ok (set_enabled machine enabled env).0 ≡ true
    → let (r, env') = set_enabled machine enabled env in
      (is_enabled machine env'.world).0 ≡ ok enabled
unfolding set_enabled
set_enabled-is_enabled machine task draft set root_draft register delete leave spawn apartment
      connect root missing present enabled env h =
    let (r, env') = set_enabled machine enabled env in
    is_enabled-said machine task spawn apartment connect root missing present env'.world
      (wanted enabled)
      (after_elevation-task machine task draft set root_draft register delete leave enabled
        (on_world (ensure_process_is_elevated machine.process) env) h)
    ∙ ap ok (said-wanted enabled)
