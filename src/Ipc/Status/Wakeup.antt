-- ===== src/Ipc/Status/Wakeup.antt =====
-- No wake-up of the status server of src/ipc.rs is lost.
use wardoff.Prelude.{Bool, true, false, List, [], ◌∷◌, ◌≡◌, ◌⊎◌, inl, inr, Bool-cases, refl, arith}
use wardoff.Ipc.Status.{
  Phase, stopped, waiting, sending, awaiting, StatusServer, started, server_turn, connect, request,
  wake_status_server, Event, turns, client, answers, unwoken, fails, answer, stay_unwoken, handle,
  run,
}

abbrev is_stuck : Phase → Bool
is_stuck (waiting false) = true
is_stuck _ = false

-- After the wake-up: the flag is set, and no instance waits without a client.
abbrev Woken : StatusServer → Type 0
Woken s = (s.requested ≡ true) × (is_stuck s.phase ≡ false)

run-requested :
    (events : List Event) (s : StatusServer) → s.requested ≡ true → (run events s).requested ≡ true
unfolding run handle server_turn connect answer stay_unwoken
run-requested [] s h = h
run-requested (turns ∷ events) s h = run-requested events (server_turn s) (ground (arith, h))
run-requested (client ∷ events) s h = run-requested events (connect s) (ground (arith, h))
run-requested (answers ∷ events) s h = run-requested events (answer s) (ground (arith, h))
run-requested (unwoken ∷ events) s h = run-requested events (stay_unwoken s) (ground (arith, h))
run-requested (fails ∷ events) s h = run-requested events (record s { phase = stopped }) h

wake_status_server-Woken : (s : StatusServer) → s.requested ≡ true → Woken (wake_status_server s)
unfolding wake_status_server connect
wake_status_server-Woken s h = ground (arith, h)

run-Woken : (events : List Event) (s : StatusServer) → Woken s → Woken (run events s)
unfolding run handle server_turn connect answer stay_unwoken
run-Woken [] s h = h
run-Woken (turns ∷ events) s h = run-Woken events (server_turn s) (ground (arith, h))
run-Woken (client ∷ events) s h = run-Woken events (connect s) (ground (arith, h))
run-Woken (answers ∷ events) s h = run-Woken events (answer s) (ground (arith, h))
run-Woken (unwoken ∷ events) s h = run-Woken events (stay_unwoken s) (ground (arith, h))
run-Woken (fails ∷ events) s h = run-Woken events (record s { phase = stopped }) (h.0, refl)

-- Past the test of the flag, with a status request to send or sent.
abbrev pub is_asking : Phase → Bool
is_asking sending = true
is_asking awaiting = true
is_asking _ = false

-- After the request no server passes the test of the flag.
run-quiet :
    (events : List Event) (s : StatusServer)
    → s.requested ≡ true
    → is_asking s.phase ≡ false
    → is_asking (run events s).phase ≡ false
unfolding run handle server_turn connect answer stay_unwoken
run-quiet [] s r h = h
run-quiet (turns ∷ events) s r h =
    run-quiet events (server_turn s) (ground (arith, r)) (ground (arith, r, h))
run-quiet (client ∷ events) s r h =
    run-quiet events (connect s) (ground (arith, r)) (ground (arith, r, h))
run-quiet (answers ∷ events) s r h =
    run-quiet events (answer s) (ground (arith, r)) (ground (arith, r, h))
run-quiet (unwoken ∷ events) s r h =
    run-quiet events (stay_unwoken s) (ground (arith, r)) (ground (arith, r, h))
run-quiet (fails ∷ events) s r h = run-quiet events (record s { phase = stopped }) r refl

wake_status_server-quiet :
    (s : StatusServer) → is_asking s.phase ≡ false → is_asking (wake_status_server s).phase ≡ false
unfolding wake_status_server connect
wake_status_server-quiet s h = ground (arith, h)

-- Two turns end the loop; or the server was asking when the shutdown was requested, and waits for a
-- reply, after which one more turn ends it.
abbrev pub Ends : Phase → StatusServer → Type 0
Ends at_request s =
    ((server_turn (server_turn s)).phase ≡ stopped)
    ⊎ (is_asking at_request ≡ true
        × (server_turn (server_turn s)).phase ≡ awaiting
        × (server_turn (answer (server_turn (server_turn s)))).phase ≡ stopped)

asking-Ends :
    (at_request : Phase) (s : StatusServer)
    → is_asking at_request ≡ true
    → Woken s
    → Ends at_request s
unfolding server_turn answer
asking-Ends at_request s a h = ground (arith, a, h)

quiet-Ends :
    (at_request : Phase) (s : StatusServer)
    → is_asking s.phase ≡ false
    → Woken s
    → Ends at_request s
unfolding server_turn
quiet-Ends at_request s q h = inl (ground (arith, q, h))

-- Whenever the shutdown is requested, and whatever turns, clients, replies and failures come before
-- the request, between it and the wake-up, and after that: two more turns of the server end its
-- loop, unless it had passed the test of the flag before the request and now waits for the reply to
-- its status request; the reply and one more turn then end it.
pub wakeup_not_lost :
    (before between after : List Event)
    → let requested = request (run before started) in
      let woken = wake_status_server (run between requested) in
      Ends (run before started).phase (run after woken)
unfolding request
wakeup_not_lost before between after =
    let requested = request (run before started) in
    let told = run-requested between requested refl in
    let woken = wake_status_server (run between requested) in
    let is_woken = wake_status_server-Woken (run between requested) told in
    let after_wake = run-Woken after woken is_woken in
    elim (Bool-cases (is_asking (run before started).phase)) [
      | inl asking ↦ asking-Ends (run before started).phase (run after woken) asking after_wake
      | inr quiet ↦
          quiet-Ends (run before started).phase (run after woken)
            (run-quiet after woken is_woken.0 (
              wake_status_server-quiet (run between requested)
                (run-quiet between requested refl quiet)))
            after_wake
    ]
