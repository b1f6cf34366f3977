-- ===== src/Tests/Traces.antt =====
-- The trace events of src/blocker/local.rs at work: "SHUTDOWN.EXE", and a character outside the basic
-- plane.
use wardoff.Prelude.{
  ◌+◌, ◌%◌, ◌^◌, true, none, some, ◌&&◌, [], ◌∷◌, ◌++◌, length, ◌≡◌, refl, if◌then◌else◌,
}
use wardoff.Blocker.Abort.{abort_pending_shutdown}
use wardoff.Blocker.Local.Utf16.{session_name_to_wide, read_unicode}
use wardoff.Blocker.Local.Utf16.RoundTrip.{are_characters, to_bytes, unicode_round_trip}
use wardoff.Blocker.Local.Events.{
  EventRecord, Texts, kernel_process_provider_guid, process_event_record,
}
use wardoff.Blocker.Local.Events.Filter.{concerns, is_aborted, process_event_record_outcome}
use wardoff.Tests.{machine, here}

characters : are_characters (128512 ∷ 97 ∷ []) ≡ true
characters = refl

unicode_round_trip_example :
    read_unicode (to_bytes (session_name_to_wide (128512 ∷ 97 ∷ [])) ++ 7 ∷ [])
    ≡ some (128512 ∷ 97 ∷ [])
unicode_round_trip_example = unicode_round_trip 128512 (97 ∷ []) (7 ∷ []) characters

abbrev texts : Texts
texts = record { file_name = λ path. none; to_text = λ name. "shutdown.exe"; decimal = λ n. "1" }

abbrev shutdown_starts : EventRecord
shutdown_starts = record {
  provider_id = kernel_process_provider_guid;
  id = 1;
  task = 1;
  opcode = 1;
  header_process_id = 9;
  property =
      λ name. some (to_bytes (83 ∷ 72 ∷ 85 ∷ 84 ∷ 68 ∷ 79 ∷ 87 ∷ 78 ∷ 46 ∷ 69 ∷ 88 ∷ 69 ∷ 0 ∷ []));
}

process_event_record_outcome_example :
    let env' = process_event_record (machine true) texts shutdown_starts here in
    let (outcome, w') = abort_pending_shutdown (machine true) true in
    let concerned = concerns texts shutdown_starts in
    env'.world ≡ (if concerned then w' else true)
    × length env'.journal ≡ (if concerned then 2 else 0) + 0
    × env'.blocked_event_count ≡ (if concerned && is_aborted outcome then (0 + 1) % 2 ^ 64 else 0)
process_event_record_outcome_example =
    process_event_record_outcome (machine true) texts shutdown_starts here
