-- ===== src/Logger/Writer.antt =====
-- The writer thread of src/logger/mod.rs, and how the structured log is started and stopped.
pub mod Flush
use wardoff.Prelude.{
  Bool, true, false, String, Result, ok, err, format, List, [], ◌∷◌, ◌++◌, if◌then◌else◌,
}
use wardoff.Logger.Journal.{LogRecord}

pub data LogCommand : Type 0 where
  entry : LogRecord → LogCommand
  shutdown : LogCommand

-- `LOG_COMMANDS` with the commands sent, oldest first, and whether `WRITER_HANDLE` holds the thread.
pub record LoggerState : Type 0 where
  pub sender_is_set : Bool
  pub commands : List LogCommand
  pub writer_handle : Bool

abbrev pub not_started : LoggerState
not_started = record { sender_is_set = false; commands = []; writer_handle = false }

unfoldable pub send : LogCommand → LoggerState → LoggerState
send command state =
    if state.sender_is_set
    then record state { commands = state.commands ++ command ∷ [] }
    else state

-- The logger's own state alone, as `log_event` changes it.
unfoldable pub queue_record : LogRecord → LoggerState → LoggerState
unfolding send
queue_record record' state = send (entry record') state

module _ {W : Type 0} (write_record : LogRecord → W → Result (Unit {0}) String × W) where
  -- A record that cannot be written is passed over. The list ends where every sender is gone.
  unfoldable pub run_writer_loop : List LogCommand → W → W
  run_writer_loop [] w = w
  run_writer_loop (entry record' ∷ commands) w = run_writer_loop commands (write_record record' w).1
  run_writer_loop (shutdown ∷ commands) w = w

  -- The join of the writer gives it the time for the commands sent so far.
  unfoldable pub join_writer : Bool → List LogCommand → W → W
  unfolding run_writer_loop
  join_writer false commands w = w
  join_writer true commands w = run_writer_loop commands w

  unfoldable pub shutdown_structured_logging : LoggerState → W → LoggerState × W
  unfolding join_writer send
  shutdown_structured_logging state w =
      let state' = send shutdown state in
      (record state' { writer_handle = false }, join_writer state'.writer_handle state'.commands w)

unfoldable pub spawned :
    {W : Type 0} → Result (Unit {0}) String × W → Result (Unit {0}) String × LoggerState × W
spawned (ok _, w) = (ok tt, record { sender_is_set = true; commands = []; writer_handle = true }, w)
spawned (err error, w) = (
  err (format ("Wardoff could not start its structured log writer thread: " ∷ error ∷ [])),
  not_started,
  w,
)

-- With the start of the thread.
unfoldable pub initialize_structured_logging :
    {W : Type 0}
    → (W → Result (Unit {0}) String × W)
    → LoggerState
    → W
    → Result (Unit {0}) String × LoggerState × W
unfolding spawned
initialize_structured_logging spawn_thread state w =
    let started = spawned (spawn_thread w) in
    if state.sender_is_set then (ok tt, state, w) else started
