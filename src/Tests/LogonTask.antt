-- ===== src/Tests/LogonTask.antt =====
-- The logon task of src/autostart.rs at work. The state of its Windows is the task that is kept and
-- whether the definition that is being filled in is enabled.
use wardoff.Prelude.{
  Bool, true, false, Option, none, some, String, Result, ok, err, is_ok, inl, [], ◌∷◌, ◌≡◌, refl,
  arith,
}
use wardoff.Logger.Journal.{Env}
use wardoff.Autostart.{Process, Machine, is_enabled, set_enabled, ensure_process_is_elevated}
use wardoff.Autostart.Task.{Scheduler, TaskError, not_found, found}
use wardoff.Autostart.Location.{Access}
use wardoff.Autostart.Principal.{Accounts}
use wardoff.Autostart.RoundTrip.{draft_after, set_enabled-is_enabled}
use wardoff.Autostart.Safety.{is_true, unelevated_changes_nothing, untrusted_location_refused}

pub record Kept : Type 0 where
  pub task : Option Bool
  pub draft : Bool

abbrev task_or_error : Option Bool → Result (Unit {0}) TaskError
task_or_error none = err (not_found "no task")
task_or_error (some enabled) = ok tt

abbrev enabled_or_error : Option Bool → Result Bool TaskError
enabled_or_error none = err (not_found "no task")
enabled_or_error (some enabled) = ok enabled

abbrev process : Bool → Process Kept
process elevated = record {
  is_process_elevated = λ w. (ok elevated, w);
  current_exe = λ w. (ok "C:\\Wardoff\\wardoff.exe", w);
  canonicalize = λ path w. (ok path, w);
  parent = λ path. some "C:\\Wardoff";
}

abbrev accounts : Accounts Kept
accounts = record {
  open_process_token = λ w. (ok 1, w);
  token_information_length = λ token w. (40, w);
  last_error = λ w. "none";
  token_user = λ token w. (ok 2, w);
  is_invalid_sid = λ sid. false;
  probe_account = λ sid w. (ok tt, w);
  lookup_account = λ sid w. (ok ("user", "host"), w);
  convert_sid_to_string = λ sid w. (ok "S-1-5", w);
  is_blank = λ text. false;
}

abbrev access : Bool → Access Kept
access writable = record {
  open_process_token = λ w. (ok 1, w);
  linked_token = λ token w. (ok 3, w);
  duplicate_token = λ token w. (ok 4, w);
  get_named_security_info = λ path w. (ok 5, w);
  access_check = λ descriptor token rights w. (ok writable, w);
}

abbrev scheduler : Scheduler Kept
scheduler = record {
  spawn = λ w. (ok tt, w);
  initialize_com_apartment = λ w. (ok tt, w);
  uninitialize_com_apartment = λ w. w;
  connect_task_service = λ w. (ok tt, w);
  get_root_folder = λ w. (ok tt, w);
  new_task = λ w. (ok tt, w);
  set = λ setting w. (ok tt, record w { draft = draft_after setting w.draft });
  local_time = λ w. "2026-01-01T00:00:00";
  register_task_definition = λ w. (ok tt, record w { task = some w.draft });
  delete_task = λ w. (task_or_error w.task, record w { task = none });
  get_task = λ w. (task_or_error w.task, w);
  task_is_enabled = λ w. (enabled_or_error w.task, w);
}

abbrev machine : Bool → Bool → Machine Kept
machine elevated writable = record {
  process = process elevated;
  accounts = accounts;
  access = access writable;
  scheduler = scheduler;
}

abbrev nothing_kept : Env Kept
nothing_kept = record {
  world = record { task = none; draft = false };
  journal = [];
  blocked_event_count = 0;
}

missing : (w : Kept) → w.task ≡ none → found (scheduler.get_task w).0 ≡ ok none
unfolding found
missing w h = ground (arith, h)

present :
    (w : Kept) (enabled : Bool)
    → w.task ≡ some enabled
    → let (r, w') = scheduler.get_task w in
      r ≡ ok tt × (scheduler.task_is_enabled w').0 ≡ ok enabled
present w enabled h = ground (arith, h)

updated : is_ok (set_enabled (machine true false) true nothing_kept).0 ≡ true
unfolding set_enabled wardoff.Autostart.Principal.current_user_id
    wardoff.Autostart.Location.ensure_trusted_autostart_location
    wardoff.Autostart.Task.run_task_scheduler wardoff.Autostart.Task.register_autostart_task
updated = refl

set_enabled-is_enabled_example :
    let (r, env') = set_enabled (machine true false) true nothing_kept in
    (is_enabled (machine true false) env'.world).0 ≡ ok true
set_enabled-is_enabled_example =
    set_enabled-is_enabled (machine true false) (λ w. w.task) (λ w. w.draft) (λ setting w. refl)
      (λ w. refl) (λ w h. refl) (λ w h. refl) (λ w. refl) (λ w. (refl, refl)) (λ w. (refl, refl))
      (λ w. (refl, refl)) (λ w. (refl, refl)) missing present true nothing_kept updated

unelevated : is_true ((process false).is_process_elevated nothing_kept.world).0 ≡ false
unelevated = refl

unelevated_changes_nothing_example :
    let (r, env') = set_enabled (machine false false) true nothing_kept in
    is_ok r ≡ false
    × env'.world ≡ nothing_kept.world
    × env'.blocked_event_count ≡ 0
    × ((message : String) × (r ≡ err message)
        × (env'.journal
            ≡ record {
              event = "autostart_task_updated";
              source = "autostart";
              action = message;
              success = false;
            }
              ∷ []))
unelevated_changes_nothing_example =
    unelevated_changes_nothing (machine false false) true nothing_kept unelevated

untrusted_location_refused_example :
    is_ok (set_enabled (machine true true) true nothing_kept).0 ≡ false
    × set_enabled (record (machine true true) { scheduler = scheduler }) true nothing_kept
      ≡ set_enabled (machine true true) true nothing_kept
untrusted_location_refused_example =
    untrusted_location_refused (machine true true) scheduler nothing_kept
      (inl (λ descriptor token w. refl))
