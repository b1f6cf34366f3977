-- ===== src/Blocker/Local/Events/Filter.antt =====
-- Which trace events of src/blocker/local.rs lead to an abort.
use wardoff.Prelude.{
  ℕ, ◌+◌, ◌%◌, ◌^◌, Bool, true, false, ◌==◌, ◌&&◌, Option, none, some, List, [], ◌∷◌, length, ◌≡◌,
  refl, arith, ap, if◌then◌else◌, map,
}
use wardoff.Logger.Journal.{Env, log_event, record_blocked_event}
use wardoff.Blocker.Windows.{Windows}
use wardoff.Blocker.Abort.{ShutdownAbortOutcome, aborted, abort_pending_shutdown}
use wardoff.Blocker.Local.Events.{
  EventRecord, image_name, Texts, to_ascii_lowercase, eq_ignore_ascii_case, basename_or_original,
  is_process_start, read_unicode_property, settle_abort, abort_for, check_image,
  process_event_record, shutdown_image_name,
}

abbrev pub is_aborted : ShutdownAbortOutcome → Bool
is_aborted aborted = true
is_aborted _ = false

abbrev same : List ℕ → List ℕ → Bool
same [] [] = true
same [] (d ∷ ds) = false
same (c ∷ cs) [] = false
same (c ∷ cs) (d ∷ ds) = c == d && same cs ds

-- The reference: the program's file name, in small letters, is "shutdown.exe".
abbrev names_shutdown : Texts → Option (List ℕ) → Bool
names_shutdown texts none = false
names_shutdown texts (some name) =
    same (map to_ascii_lowercase (basename_or_original texts name)) shutdown_image_name

abbrev pub concerns : Texts → EventRecord → Bool
concerns texts event_record =
    is_process_start event_record
    && names_shutdown texts (read_unicode_property event_record image_name)

eq_ignore_ascii_case-same :
    (cs ds : List ℕ)
    → eq_ignore_ascii_case cs ds ≡ same (map to_ascii_lowercase cs) (map to_ascii_lowercase ds)
unfolding eq_ignore_ascii_case
eq_ignore_ascii_case-same [] [] = refl
eq_ignore_ascii_case-same [] (d ∷ ds) = refl
eq_ignore_ascii_case-same (c ∷ cs) [] = refl
eq_ignore_ascii_case-same (c ∷ cs) (d ∷ ds) =
    ap (λ b. to_ascii_lowercase c == to_ascii_lowercase d && b) (eq_ignore_ascii_case-same cs ds)

eq_ignore_ascii_case-shutdown :
    (name : List ℕ)
    → eq_ignore_ascii_case name shutdown_image_name
      ≡ same (map to_ascii_lowercase name) shutdown_image_name
unfolding to_ascii_lowercase
eq_ignore_ascii_case-shutdown name = eq_ignore_ascii_case-same name shutdown_image_name

module _ {W : Type 0} (sys : Windows W) (texts : Texts) where
  abort_for_outcome :
      (event_record : EventRecord) (name : List ℕ) (env : Env W)
      → let env' = abort_for sys texts event_record name env in
        let (outcome, w') = abort_pending_shutdown sys env.world in
        env'.world ≡ w'
        × length env'.journal ≡ 2 + length env.journal
        × env'.blocked_event_count ≡ (
            if is_aborted outcome
            then (env.blocked_event_count + 1) % 2 ^ 64
            else env.blocked_event_count)
  unfolding abort_for settle_abort log_event record_blocked_event
  abort_for_outcome event_record name env = ground arith

  check_image_outcome :
      (event_record : EventRecord) (name : Option (List ℕ)) (env : Env W)
      → let env' = check_image sys texts event_record name env in
        let (outcome, w') = abort_pending_shutdown sys env.world in
        let named = names_shutdown texts name in
        env'.world ≡ (if named then w' else env.world)
        × length env'.journal ≡ (if named then 2 else 0) + length env.journal
        × env'.blocked_event_count ≡ (
            if named && is_aborted outcome
            then (env.blocked_event_count + 1) % 2 ^ 64
            else env.blocked_event_count)
  unfolding check_image
  check_image_outcome event_record none env = ground arith
  check_image_outcome event_record (some name) env =
      let base = basename_or_original texts name in
      ground (arith, eq_ignore_ascii_case-shutdown base, abort_for_outcome event_record base env)

  -- An event that is not the start of a shutdown.exe changes nothing. One that is makes one attempt
  -- to abort, writes two records, and counts as a blocked event exactly if the attempt succeeded.
  pub process_event_record_outcome :
      (event_record : EventRecord) (env : Env W)
      → let env' = process_event_record sys texts event_record env in
        let (outcome, w') = abort_pending_shutdown sys env.world in
        let concerned = concerns texts event_record in
        env'.world ≡ (if concerned then w' else env.world)
        × length env'.journal ≡ (if concerned then 2 else 0) + length env.journal
        × env'.blocked_event_count ≡ (
            if concerned && is_aborted outcome
            then (env.blocked_event_count + 1) % 2 ^ 64
            else env.blocked_event_count)
  unfolding process_event_record
  process_event_record_outcome event_record env =
      let name = read_unicode_property event_record image_name in
      ground (arith, check_image_outcome event_record name env)
