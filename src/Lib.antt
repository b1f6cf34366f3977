-- ===== src/Lib.antt =====
-- Verification library of Wardoff, a Windows tool that keeps a session from being shut down, signed
-- out, restarted or put to sleep while it is in Block mode.
--
-- The program. One primary process owns an `Application` (src/main.rs): a `BlockerCoordinator`
-- (src/blocker/mod.rs), a tray icon that may be absent, a named-pipe server and the Block mode that
-- is owed after a sleep. The coordinator owns five layers: the shutdown block reason and the
-- session-end messages (Layer 1, src/blocker/shutdown.rs), a trace of local shutdown attempts
-- (Layer 2, local.rs), the scheduled reboot task of Windows Update (Layer 3, update.rs), a poll that
-- aborts remote shutdowns (Layer 4, remote.rs), and the sleep and display requests (Layer 5,
-- sleep.rs). Requests come over the pipe (src/ipc.rs) from other processes of the same command line
-- (src/cli.rs, src/runtime_policy.rs), from the tray menu, and from Windows.
--
-- The files.
--   Prelude         tests, lists over the native numbers, results, `format!` and `join`
--   Logger.Journal  the queue of structured records and the shared environment `Env`
--   Logger.Files    appending, rotation and the tail, src/logger/mod.rs; Tail and Rotation prove
--   Logger.Plain    its checks for links (Links); Logger.Writer its writer thread (Flush)
--   Blocker.Windows the Windows calls, one record of functions that is a parameter throughout
--   Blocker.PowerRequests and SleepBlocker       src/blocker/sleep.rs (Outcome, Ownership prove)
--   Blocker.ShutdownBlocker and Abort            src/blocker/shutdown.rs, abort.rs
--   Blocker.Local (Lifecycle), TraceSession      src/blocker/local.rs; Local.Events (Filter) handles
--                                                a trace event, Local.Utf16 (RoundTrip) its texts
--   Blocker.Update (Worker, Restore, Lifecycle)  src/blocker/update.rs
--   Blocker.Remote (Polling)                     src/blocker/remote.rs
--   Blocker.Coordinator                          src/blocker/mod.rs (Consistency, Switching,
--                                                History and Forced prove); Power the actions
--   Cli, Policy     src/cli.rs, src/runtime_policy.rs and the dispatch of src/main.rs
--   App             `Application::set_mode`; App.Power, Requests, AutostartTask and Lifecycle hold
--                   its other operations and App.MessageLoop the message loop; Modes, Invariant,
--                   History, Promises, Actions and Wake prove
--   Launch          the requests of a process, src/main.rs; Launch.Runtime its start of a runtime
--                   (Guarded), Launch.Console the console and relaunches, src/windows_util.rs
--   Ipc             the reply type; Ipc.Frame cuts a request out of the reads, Ipc.Connect holds the
--                   retry loops of clients and server, Ipc.Status the status server at shutdown,
--                   Ipc.Client (RoundTrip) the clients, Ipc.Control (Replies) the control server,
--                   Ipc.Startup (Outcome) the handshake at the start and `IpcServer::shutdown`
--   Tray            the controller and its menu, src/tray/mod.rs; Tray.Icon src/tray/icon.rs;
--                   Tray.Thread the state and commands of its thread, Thread.Creation and Turns how
--                   it creates the icon and its loop (Mirror, History, Recovery)
--   Autostart       `is_enabled` and `set_enabled` of src/autostart.rs; Task, Location and Principal
--                   are the scheduled task, the place of the program and the account; Safety and
--                   RoundTrip prove
--   Instance        the single-instance mutex, src/instance.rs; Handles proves
--   Tests           a concrete Windows, and each theorem applied at it
-- An operation has the name of its Rust function and takes the state it changes, the environment
-- `Env` (the world of Windows, the records logged, the count of blocked events), and returns them
-- after its result. A Rust function that branches deeply is split into helpers, each by clauses.
--
-- What Windows does is not assumed: each call is a function from its world to an answer and the
-- next world, so a theorem holds for every answer and every failure. The exceptions are named
-- hypotheses: `IsObedient` of Blocker.Update.Restore and those of Autostart.RoundTrip, the documented
-- behaviour of Task Scheduler; in Ipc.Client.RoundTrip that a pipe carries what is written to it and
-- that serde reads back what it wrote; in Tray.Thread.Recovery that the drawing calls succeed; and in
-- Ipc.Status that opening a pipe reaches an instance that waits for a client.
--
-- Threads. The worker of a layer is a phase in the layer's state, and `worker_step` is its turn up to
-- the next wait; a history is any sequence of calls and turns. Joining a worker gives it the turns it
-- needs to end, two at most, which is proved enough where it is used.
--
-- A status request that the application leaves unanswered keeps the status server waiting: the source
-- sets no limit to this wait, and Ipc.Status has it as a phase of its own.
--
-- Bounds. Loops over a list recur on it. The retry loops recur on the attempts left, from the
-- constants of the source (20 and 10). A request is read from a list of reads that ends where its
-- deadline passes. The loops of the servers and of the tray thread run for any number of clients or
-- turns. The counter of blocked events wraps at 2^64; the flag of a sign-out is bit 31.
--
-- Not modelled: creating windows and registering callbacks, the security descriptors of the pipes,
-- the property buffers of a trace session and the reading of an event's property, the token queries
-- of src/windows_util.rs and src/session_scope.rs, the report of a fatal error in `main`, running out of
-- memory. The interface `Autostart` of App takes the task's answers alone, without
-- the records that src/autostart.rs writes. Human readable log lines are left out, as are the
-- timestamps of records, and the closing of handles by a guard in src/autostart.rs. Values dropped on
-- an error path release their layers in Rust; here they are just gone.
pub mod Prelude
pub mod Logger
pub mod Blocker
pub mod Cli
pub mod Policy
pub mod App
pub mod Autostart
pub mod Ipc
pub mod Launch
pub mod Tests
pub mod Instance
pub mod Tray
