-- ===== src/Logger/Writer/Flush.antt =====
-- What the writer of src/logger/mod.rs has written when the structured log is stopped.
use wardoff.Prelude.{
  Bool, true, String, Result, ok, err, is_ok, append-nil, List, [], ◌∷◌, ◌++◌, map, append_assoc,
  ◌≡◌, refl, sym, ap, ◌∙◌, arith,
}
use wardoff.Logger.Journal.{LogRecord}
use wardoff.Logger.Writer.{
  LogCommand, entry, shutdown, LoggerState, not_started, run_writer_loop, join_writer, send,
  shutdown_structured_logging, queue_record, initialize_structured_logging, spawned,
}

abbrev pub queue_all : List LogRecord → LoggerState → LoggerState
queue_all [] state = state
queue_all (r ∷ rs) state = queue_all rs (queue_record r state)

queued :
    (rs : List LogRecord) (commands : List LogCommand) (handle : Bool)
    → queue_all rs (record { sender_is_set = true; commands = commands; writer_handle = handle })
      ≡ record { sender_is_set = true; commands = commands ++ map entry rs; writer_handle = handle }
unfolding queue_record send
queued [] commands handle =
    ap (λ cs. record { sender_is_set = true; commands = cs; writer_handle = handle })
      (sym (append-nil commands))
queued (r ∷ rs) commands handle =
    queued rs (commands ++ entry r ∷ []) handle
    ∙ ap (λ cs. record { sender_is_set = true; commands = cs; writer_handle = handle })
        (append_assoc commands (entry r ∷ []) (map entry rs))

spawned_ok :
    {W : Type 0} (x : Result (Unit {0}) String × W)
    → is_ok x.0 ≡ true
    → let (r, state, w) = spawned x in
      r ≡ ok tt × state ≡ record { sender_is_set = true; commands = []; writer_handle = true }
unfolding spawned
spawned_ok (ok _, w) h = (refl, refl)
spawned_ok (err error, w) h = ground (arith, h)

module _ {W : Type 0} (write_record : LogRecord → W → Result (Unit {0}) String × W) where
  -- The reference: the records one after the other.
  abbrev pub write_all : List LogRecord → W → W
  write_all [] w = w
  write_all (r ∷ rs) w = write_all rs (write_record r w).1

  run_writer_loop-flush :
      (rs : List LogRecord) (w : W)
      → run_writer_loop write_record (map entry rs ++ shutdown ∷ []) w ≡ write_all rs w
  unfolding run_writer_loop
  run_writer_loop-flush [] w = refl
  run_writer_loop-flush (r ∷ rs) w = run_writer_loop-flush rs (write_record r w).1

  stopped :
      (rs : List LogRecord) (state : LoggerState) (w : W)
      → state ≡ record { sender_is_set = true; commands = map entry rs; writer_handle = true }
      → let (state', w') = shutdown_structured_logging write_record state w in
        w' ≡ write_all rs w × (shutdown_structured_logging write_record state' w').1 ≡ w'
  unfolding shutdown_structured_logging send join_writer
  stopped rs state w h = rw h (run_writer_loop-flush rs w, refl)

-- Once the log has started, every record that was queued is written, in order, when the log is
-- stopped, whether or not single records can be written; and stopping it again writes nothing.
pub queued_records_written :
    {W : Type 0} (spawn_thread : W → Result (Unit {0}) String × W)
    (write_record : LogRecord → W → Result (Unit {0}) String × W) (rs : List LogRecord) (w : W)
    → is_ok (spawn_thread w).0 ≡ true
    → let (r, state, w₁) = initialize_structured_logging spawn_thread not_started w in
      let (state₂, w₂) = shutdown_structured_logging write_record (queue_all rs state) w₁ in
      r ≡ ok tt
      × w₂ ≡ write_all write_record rs w₁
      × (shutdown_structured_logging write_record state₂ w₂).1 ≡ w₂
unfolding initialize_structured_logging
queued_records_written spawn_thread write_record rs w h =
    let (r, state, w₁) = initialize_structured_logging spawn_thread not_started w in
    let started = spawned_ok (spawn_thread w) h in
    let written =
      stopped write_record rs (queue_all rs state) w₁
        (ap (λ s. queue_all rs s) started.1 ∙ queued rs [] true) in
    (started.0, written.0, written.1)
