-- ===== src/Ipc/Startup/Outcome.antt =====
-- How the start and the shutdown of the pipe servers of src/ipc.rs end.
use wardoff.Prelude.{
  Bool, true, false, String, ok, err, is_ok, List, [], ◌∷◌, ◌++◌, ◌&&◌, ◌≡◌, refl, arith,
  if◌then◌else◌,
}
use wardoff.Ipc.Startup.{
  is_control, status, ServerStartupResult, Servers, IpcServer, cleanup_failed_server_startup, wait,
  wait_for_server_startup, join_status_thread, join_threads, after_answer, shutdown, tell_control,
}

pub data Step : Type 0 where
  requests_status_shutdown wakes_status_server sends_shutdown_server : Step
  joins_control joins_status : Step

-- Servers that write down each step.
abbrev pub written : (W : Type 0) → Servers W → Servers (W × List Step)
written W servers = record {
  request_status_shutdown =
      λ w. (servers.request_status_shutdown w.0, w.1 ++ requests_status_shutdown ∷ []);
  wake_status_server = λ w. (servers.wake_status_server w.0, w.1 ++ wakes_status_server ∷ []);
  send_shutdown_server = λ w.
      let (r, w') = servers.send_shutdown_server w.0 in
      (r, (w', w.1 ++ sends_shutdown_server ∷ []));
  join_control =
      λ w. let (r, w') = servers.join_control w.0 in (r, (w', w.1 ++ joins_control ∷ []));
  join_status = λ w. let (r, w') = servers.join_status w.0 in (r, (w', w.1 ++ joins_status ∷ []));
}

-- A clean-up; the control server is told to stop if it was heard of.
abbrev pub cleanup_steps : Bool → List Step
cleanup_steps control_ready =
    requests_status_shutdown
    ∷ wakes_status_server
    ∷ (if control_ready
        then sends_shutdown_server ∷ joins_control ∷ joins_status ∷ []
        else joins_control ∷ joins_status ∷ [])

-- The steps that the messages received lead to: none if the first two are good.
abbrev pub expected_steps : List ServerStartupResult → List Step
expected_steps [] = cleanup_steps false
expected_steps (first ∷ []) = cleanup_steps (is_ok first.result && is_control first.kind)
expected_steps (first ∷ second ∷ rest) =
    if is_ok first.result
    then if is_ok second.result then [] else cleanup_steps (is_control first.kind)
    else cleanup_steps false

-- Two messages came, and both are good.
abbrev pub both_up : List ServerStartupResult → Bool
both_up (first ∷ second ∷ rest) = is_ok first.result && is_ok second.result
both_up _ = false

-- The start succeeds, with nothing undone, exactly when the two messages that come report success.
-- Otherwise the status server is told to stop and woken, the control server is told to stop if the
-- success of its own start was received before the failure, and then both threads are joined.
pub startup_steps :
    {W : Type 0} (servers : Servers W) (messages : List ServerStartupResult) (w : W)
    → let (r, w') = wait_for_server_startup (written W servers) messages (w, []) in
      w'.1 ≡ expected_steps messages × is_ok r ≡ both_up messages
unfolding wait_for_server_startup wait cleanup_failed_server_startup tell_control
startup_steps servers [] w = (refl, refl)
startup_steps servers (first ∷ []) w = ground arith
startup_steps servers (first ∷ second ∷ rest) w = ground arith

abbrev tells_control : List Step → Bool
tells_control [] = false
tells_control (sends_shutdown_server ∷ steps) = true
tells_control (_ ∷ steps) = tells_control steps

abbrev joins_control_thread : List Step → Bool
joins_control_thread [] = false
joins_control_thread (joins_control ∷ steps) = true
joins_control_thread (_ ∷ steps) = joins_control_thread steps

-- When the failure of the status server is the first message, the control server is joined and never
-- told to stop, even if its own success is the message that waits behind: it then serves on and the
-- join does not end.
status_failure_strands_control :
    {W : Type 0} (servers : Servers W) (error : String) (rest : List ServerStartupResult) (w : W)
    → let failure : ServerStartupResult = record { kind = status; result = err error } in
      let (r, w') = wait_for_server_startup (written W servers) (failure ∷ rest) (w, []) in
      r ≡ err error × tells_control w'.1 ≡ false × joins_control_thread w'.1 ≡ true
unfolding wait_for_server_startup wait cleanup_failed_server_startup tell_control
status_failure_strands_control servers error rest w = (refl, refl, refl)

-- A shutdown that ends well leaves no thread to join, and a second one then does nothing.
shutdown_settles :
    {W : Type 0} (servers : Servers W) (server : IpcServer) (w : W)
    → is_ok (shutdown servers server w).0 ≡ true
    → let (r, server', w') = shutdown servers server w in
      server'.control_join_handle ≡ false
      × server'.status_join_handle ≡ false
      × shutdown servers server' w' ≡ (ok tt, server', w')
unfolding shutdown after_answer join_threads join_status_thread
shutdown_settles servers server w h = ground (arith, h)
