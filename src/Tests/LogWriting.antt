-- ===== src/Tests/LogWriting.antt =====
-- The directories and the writer thread of src/logger/mod.rs at work.
use wardoff.Prelude.{
  ℕ, true, false, Option, some, String, Result, ok, err, is_ok, inl, List, [], ◌∷◌, ◌≡◌, refl,
}
use wardoff.Logger.Journal.{LogRecord}
use wardoff.Logger.Plain.{Metadata, FileSystem, has_reparse_point, open_log}
use wardoff.Logger.Plain.Links.{link_never_followed}
use wardoff.Logger.Writer.{initialize_structured_logging, not_started, shutdown_structured_logging}
use wardoff.Logger.Writer.Flush.{queue_all, write_all, queued_records_written}

-- A junction is a directory with the attribute 0x400.
abbrev junction : Metadata
junction = record { file_attributes = 1040; is_dir = true; is_file = false }

abbrev up : String → Option String
up path = some "C:\\Users\\user"

abbrev files : FileSystem ℕ
files = record {
  parent = up;
  symlink_metadata = λ path w. (ok junction, w);
  create_dir = λ path w. (ok tt, w);
  open_for_read = λ path w. (ok 1, w);
  open_for_append = λ path w. (ok 1, w);
  metadata = λ file w. (ok junction, w);
}

is_link : has_reparse_point junction ≡ true
unfolding has_reparse_point
is_link = refl

link_never_followed_example : is_ok (open_log files "wardoff.jsonl" 0).0 ≡ false
link_never_followed_example =
    link_never_followed files "wardoff.jsonl" "C:\\Users\\user" "C:\\Users\\user" junction 0 refl
      refl is_link (inl (λ w. refl))

abbrev started_record : LogRecord
started_record = record {
  event = "application_started";
  source = "application";
  action = "Wardoff started.";
  success = true;
}

-- The second record cannot be written.
abbrev append : LogRecord → List LogRecord → Result (Unit {0}) String × List LogRecord
append r [] = (ok tt, r ∷ [])
append r (first ∷ more) = (err "disk full", first ∷ more)

queued_records_written_example :
    let (r, state, w₁) = initialize_structured_logging (λ w. (ok tt, w)) not_started [] in
    let (state₂, w₂) =
      shutdown_structured_logging append
        (queue_all (started_record ∷ started_record ∷ []) state)
        w₁ in
    r ≡ ok tt
    × w₂ ≡ write_all append (started_record ∷ started_record ∷ []) w₁
    × (shutdown_structured_logging append state₂ w₂).1 ≡ w₂
queued_records_written_example =
    queued_records_written (λ w. (ok tt, w)) append (started_record ∷ started_record ∷ []) [] refl
