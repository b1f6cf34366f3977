-- ===== src/Tests/Logs.antt =====
-- The logger and the pipes at work (src/logger/mod.rs, src/ipc.rs).
use wardoff.Prelude.{
  ℕ, ◌-◌, ◌≤◌, ◌<◌, true, false, none, some, ok, err, List, [], ◌∷◌, length, ◌≡◌, refl, ◌⊎◌, arith,
}
use wardoff.Policy.{PipeMode, IpcRequest}
use wardoff.Logger.Files.{
  Bytes, LogFiles, Refusals, Access, Reader, and_read, write_record, read_recent_lines,
}
use wardoff.Logger.Tail.{newest, all_lines, read_recent_lines-newest}
use wardoff.Logger.Rotation.{Written, write_record_loses_oldest_only}
use wardoff.Ipc.Frame.{
  Decoder, Arrival, bytes, no_data, end_of_pipe, max_request_bytes, read_request_until_deadline,
}
use wardoff.Ipc.Frame.Chunks.{prepend, frame, stream, conclude, chunks_do_not_matter}
use wardoff.Ipc.Connect.{OsCode, IoError, ClientError, Pipes, map_connect_error, connect_pipe}
use wardoff.Ipc.Connect
use wardoff.Ipc.Connect.Attempts.{
  noted, ReportsLast, is_missing, is_unavailable, connect_error_is_mapped,
}

abbrev files : LogFiles
files = record {
  base = some (49 ∷ 50 ∷ 13 ∷ 10 ∷ 51 ∷ 10 ∷ []);
  first = none;
  second = some (52 ∷ 10 ∷ []);
}

abbrev access : Access
access = record { inspect = none; opening = none; read = none }

-- A decoder for which every line is the same text.
abbrev reader : Reader
reader = record { from_utf8 = λ line. ok "line"; second = access; first = access; base = access }

two_are_some : 0 < 2
two_are_some = omega arith

three_fit : 2 ≤ 100000
three_fit = omega arith

read_recent_lines-newest_example :
    read_recent_lines reader 2 files
    ≡ and_read (all_lines reader files) λ lines. ok (newest 2 lines)
read_recent_lines-newest_example = read_recent_lines-newest reader 2 files two_are_some three_fit

abbrev added_line : Bytes
added_line = 53 ∷ 54 ∷ []

abbrev refusals : Refusals
refusals = record {
  directory = none;
  metadata = none;
  remove = some "locked";
  rename_first = none;
  rename_base = none;
  serialize = none;
  opening = none;
  write_line = some (1, "disk full");
  write_newline = none;
  flush = none;
}

write_record_loses_oldest_only_example :
    Written added_line files (write_record refusals added_line files)
write_record_loses_oldest_only_example = write_record_loses_oldest_only refusals added_line files

abbrev decoder : Decoder
decoder = record {
  from_utf8 = λ line. ok "text";
  is_blank = λ text. false;
  from_json = λ text. ok (IpcRequest.set_mode PipeMode.block);
}

abbrev arrivals : List Arrival
arrivals = bytes 123 (125 ∷ []) ∷ no_data ∷ bytes 10 (65 ∷ []) ∷ end_of_pipe ∷ []

nothing_held : length {A = ℕ} [] < 4096
nothing_held = omega arith

chunks_do_not_matter_example :
    read_request_until_deadline decoder arrivals []
    ≡ conclude decoder arrivals (prepend [] (frame (max_request_bytes - 0) (stream arrivals)))
chunks_do_not_matter_example = chunks_do_not_matter decoder arrivals [] nothing_held

-- No pipe: every open fails, and the clock counts the sleeps.
abbrev missing : IoError
missing = record { raw_code = Connect.file_not_found; text = "not found" }

abbrev no_pipes : Pipes ℕ
no_pipes = record {
  open_pipe = λ w. (err missing, w);
  create_pipe = λ w. (err missing, w);
  now = λ w. w;
  sleep = λ delay w. w;
}

no_answer :
    connect_pipe (noted no_pipes) "pipe" true (some 0) (5, [])
    ≡ (err Connect.unavailable, (5, missing ∷ []))
unfolding connect_pipe Connect.attempts Connect.opened Connect.retry_or_fail
    Connect.wait_before_pipe_retry Connect.sleep_some Connect.remaining_time
    Connect.pipe_retry_delay Connect.is_worth_retrying map_connect_error
no_answer = refl

connect_error_is_mapped_example :
    ReportsLast no_pipes "pipe" true (some 0) (err Connect.unavailable, (5, missing ∷ []))
    × ((is_unavailable Connect.unavailable ≡ false)
        ⊎ ((error : IoError) × ((rest : List IoError) × ((missing ∷ []) ≡ error ∷ rest)
              × (is_missing error.raw_code ≡ true))))
connect_error_is_mapped_example =
    connect_error_is_mapped no_pipes "pipe" true (some 0) Connect.unavailable 5 (5, missing ∷ [])
      no_answer
