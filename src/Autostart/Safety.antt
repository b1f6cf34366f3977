-- ===== src/Autostart/Safety.antt =====
-- What `set_enabled` of src/autostart.rs refuses, and leaves alone when it does.
use wardoff.Prelude.{
  Bool, true, false, ℕ, String, Result, ok, err, is_ok, ◌⊎◌, inl, inr, ◌∷◌, ◌≡◌, refl, arith,
}
use wardoff.Logger.Journal.{Env, Attempt, on_world, log_event, label}
use wardoff.Autostart.{
  Machine, ensure_process_is_elevated, check_elevation, prepare, check_location, update_prepared,
  after_elevation, set_enabled,
}
use wardoff.Autostart.Task.{Scheduler}
use wardoff.Autostart.Location.{
  Access, executable_rights, directory_rights, ensure_trusted_autostart_location, refuse_if,
  token_can_write_executable_path, token_can_write_directory, token_has_path_access,
  load_path_security_descriptor,
}

-- The answer of Windows that lets the program go on.
abbrev pub is_true : Result Bool String → Bool
is_true (ok answer) = answer
is_true (err error) = false

not_elevated :
    {W : Type 0} (machine : Machine W) (w : W)
    → is_true (machine.process.is_process_elevated w).0 ≡ false
    → is_ok (ensure_process_is_elevated machine.process w).0 ≡ false
unfolding ensure_process_is_elevated check_elevation
not_elevated machine w h = ground (arith, h)

elevation_error :
    {W : Type 0} (machine : Machine W) (enabled : Bool) (x : Attempt W (Unit {0}))
    → is_ok x.0 ≡ false
    → let (r, env') = after_elevation machine enabled x in
      is_ok r ≡ false
      × env'.world ≡ x.1.world
      × env'.blocked_event_count ≡ x.1.blocked_event_count
      × ((message : String) × (r ≡ err message)
          × (env'.journal
              ≡ record {
                event = "autostart_task_updated";
                source = "autostart";
                action = message;
                success = false;
              }
                ∷ x.1.journal))
unfolding after_elevation log_event label
elevation_error machine enabled (ok _, env) h = ground (arith, h)
elevation_error machine enabled (err message, env) h = (refl, refl, refl, (message, refl, refl))

-- Unless Windows answers that the process is elevated, which includes a failure to tell, the update
-- fails with a message that its one record carries, and nothing but the elevation was asked for.
pub unelevated_changes_nothing :
    {W : Type 0} (machine : Machine W) (enabled : Bool) (env : Env W)
    → is_true (machine.process.is_process_elevated env.world).0 ≡ false
    → let (r, env') = set_enabled machine enabled env in
      is_ok r ≡ false
      × env'.world ≡ (machine.process.is_process_elevated env.world).1
      × env'.blocked_event_count ≡ env.blocked_event_count
      × ((message : String) × (r ≡ err message)
          × (env'.journal
              ≡ record {
                event = "autostart_task_updated";
                source = "autostart";
                action = message;
                success = false;
              }
                ∷ env.journal))
unfolding set_enabled ensure_process_is_elevated
unelevated_changes_nothing machine enabled env h =
    elevation_error machine enabled (on_world (ensure_process_is_elevated machine.process) env)
      (not_elevated machine env.world h)

module _ {W : Type 0} (access : Access W) where
  refuses_writable_file :
      (executable_path working_directory : String) (w : W)
      → ((descriptor token : ℕ) (w : W)
          → (access.access_check descriptor token executable_rights w).0 ≡ ok true)
      → is_ok (ensure_trusted_autostart_location access executable_path working_directory w).0
        ≡ false
  unfolding ensure_trusted_autostart_location token_can_write_executable_path
      token_can_write_directory token_has_path_access load_path_security_descriptor refuse_if
  refuses_writable_file executable_path working_directory w h = grind (arith, h)

  refuses_writable_directory :
      (executable_path working_directory : String) (w : W)
      → ((descriptor token : ℕ) (w : W)
          → (access.access_check descriptor token directory_rights w).0 ≡ ok true)
      → is_ok (ensure_trusted_autostart_location access executable_path working_directory w).0
        ≡ false
  unfolding ensure_trusted_autostart_location token_can_write_executable_path
      token_can_write_directory token_has_path_access load_path_security_descriptor refuse_if
  refuses_writable_directory executable_path working_directory w h = grind (arith, h)

module _ {W : Type 0} (machine : Machine W) where
  prepare-refused :
      (w : W)
      → ((executable_path working_directory : String) (w : W)
          → is_ok
              (ensure_trusted_autostart_location machine.access executable_path working_directory
                w).0
            ≡ false)
      → is_ok (prepare machine true w).0 ≡ false
  unfolding prepare check_location
  prepare-refused w h = grind (arith, h)

  unprepared :
      (scheduler : Scheduler W) (x : Attempt W (String × String × String))
      → is_ok x.0 ≡ false
      → is_ok (update_prepared machine true x).0 ≡ false
        × update_prepared (record machine { scheduler = scheduler }) true x
          ≡ update_prepared machine true x
  unfolding update_prepared
  unprepared scheduler (ok _, env) h = ground (arith, h)
  unprepared scheduler (err e, env) h = (refl, refl)

  refused_location :
      (scheduler : Scheduler W) (x : Attempt W (Unit {0}))
      → ((w : W) → is_ok (prepare machine true w).0 ≡ false)
      → is_ok (after_elevation machine true x).0 ≡ false
        × after_elevation (record machine { scheduler = scheduler }) true x
          ≡ after_elevation machine true x
  unfolding after_elevation prepare check_location
  refused_location scheduler (ok _, env) h =
      unprepared scheduler (on_world (prepare machine true) env) (h env.world)
  refused_location scheduler (err e, env) h = (refl, refl)

-- When `AccessCheck` grants all of the rights that the program asks for at once, for the executable or
-- for its folder, whatever the descriptor and the token, the task is not registered: the update fails
-- in the same way whatever the Task Scheduler would do, so that it is not called. A token that has only
-- some of the rights is not covered.
pub untrusted_location_refused :
    {W : Type 0} (machine : Machine W) (scheduler : Scheduler W) (env : Env W)
    → ((descriptor token : ℕ) (w : W)
        → (machine.access.access_check descriptor token executable_rights w).0 ≡ ok true)
      ⊎ ((descriptor token : ℕ) (w : W)
          → (machine.access.access_check descriptor token directory_rights w).0 ≡ ok true)
    → is_ok (set_enabled machine true env).0 ≡ false
      × set_enabled (record machine { scheduler = scheduler }) true env
        ≡ set_enabled machine true env
unfolding set_enabled
untrusted_location_refused machine scheduler env h =
    refused_location machine scheduler (on_world (ensure_process_is_elevated machine.process) env)
      λ w. prepare-refused machine w λ executable_path working_directory w'. elim h [
        | inl file ↦ refuses_writable_file machine.access executable_path working_directory w' file
        | inr directory ↦
            refuses_writable_directory machine.access executable_path working_directory w' directory
      ]
