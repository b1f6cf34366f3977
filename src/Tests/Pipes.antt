-- ===== src/Tests/Pipes.antt =====
-- The pipe clients and servers of src/ipc.rs at work. Their Windows keeps the bytes written.
use wardoff.Prelude.{
  ℕ, true, false, none, some, ok, err, is_ok, List, [], ◌∷◌, ◌++◌, ◌≡◌, refl, ◌<◌, length, arith,
}
use wardoff.Logger.Journal.{Env}
use wardoff.Policy.{IpcRequest}
use wardoff.Ipc.{IpcResponse}
use wardoff.Ipc.Frame.{
  Decoder, Arrival, bytes, no_data, position, max_request_bytes, read_request_until_deadline,
}
use wardoff.Ipc.Connect.{Pipes}
use wardoff.Ipc.Client.{Codec, Pipe, send_request}
use wardoff.Ipc.Client.RoundTrip.{request_round_trip}
use wardoff.Ipc.Control.{ControlCalls}
use wardoff.Ipc.Control.Replies.{Count, no_reply}
use wardoff.Ipc.Startup.{ServerStartupResult, control, status, Servers, wait_for_server_startup}
use wardoff.Ipc.Startup.Outcome.{written, expected_steps, both_up, startup_steps}

abbrev pub codec : Codec
codec = record {
  request_to_bytes = λ request. ok (123 ∷ 125 ∷ []);
  response_from_line = λ line. ok IpcResponse.ok;
  status_from_line = λ line. err "no status";
}

abbrev decoder : Decoder
decoder = record {
  from_utf8 = λ line. ok "{}";
  is_blank = λ text. false;
  from_json = λ text. ok IpcRequest.status;
}

abbrev pub pipes : Pipes (List ℕ)
pipes = record {
  open_pipe = λ w. (ok 4, w);
  create_pipe = λ w. (ok 5, w);
  now = λ w. 0;
  sleep = λ delay w. w;
}

abbrev pub pipe : Pipe (List ℕ)
pipe = record {
  current_path = λ w. (ok "pipe", w);
  write_all = λ h bs w. (ok tt, w ++ bs);
  flush = λ h w. (ok tt, w);
  read_line = λ h w. (ok (10 ∷ []), w);
}

abbrev in_pieces : List Arrival
in_pieces = bytes 123 [] ∷ no_data ∷ bytes 125 (10 ∷ []) ∷ []

abbrev payload : List ℕ
payload = 123 ∷ 125 ∷ []

one_line : position payload ≡ none
unfolding position
one_line = refl

short : length payload < max_request_bytes
short = omega arith

answered : (send_request codec pipes pipe IpcRequest.status []).0 ≡ ok IpcResponse.ok
unfolding send_request wardoff.Ipc.Connect.connect_pipe wardoff.Ipc.Connect.attempts
answered = refl

received : 123 ∷ 125 ∷ 10 ∷ [] ≡ (send_request codec pipes pipe IpcRequest.status []).1
unfolding send_request wardoff.Ipc.Connect.connect_pipe wardoff.Ipc.Connect.attempts
received = refl

request_round_trip_example : read_request_until_deadline decoder in_pieces [] ≡ ok IpcRequest.status
request_round_trip_example =
    request_round_trip codec decoder pipes pipe (λ w. w) (λ w. refl) (λ w. refl) (λ delay w. refl)
      (λ h bs w. refl) (λ h w. refl) (λ h w. refl) IpcRequest.status payload "{}" IpcResponse.ok []
      in_pieces refl one_line short refl refl refl refl answered received

-- A server whose client asks for the status, and gets its answer.
abbrev calls : ControlCalls ℕ
calls = record {
  current_control_pipe_path = λ w. (ok "pipe", w);
  build_security = λ path w. (ok tt, w);
  create_instance = λ w. (ok 7, w);
  connect_client = λ handle w. (ok tt, w);
  set_blocking = λ handle blocking w. (ok tt, w);
  reads = λ handle w. (in_pieces, w);
  to_json = λ response w. (ok (123 ∷ 125 ∷ []), w);
  write_all = λ handle bs w. (ok tt, w);
  flush = λ handle w. (ok tt, w);
  send_pending = λ request w. (true, w);
  post_wake = λ w. (ok tt, w);
  recv = λ w. (some IpcResponse.ok, w);
}

abbrev start : Env (Count ℕ)
start = record {
  world = record {
    inner = 0;
    stage = no_reply;
    accepted = 0;
    replies = 0;
    lost = 0;
    passed_on = 0;
    only_commands = true;
  };
  journal = [];
  blocked_event_count = 0;
}

abbrev servers : Servers ℕ
servers = record {
  request_status_shutdown = λ w. w;
  wake_status_server = λ w. w;
  send_shutdown_server = λ w. (ok IpcResponse.ok, w);
  join_control = λ w. (ok tt, w);
  join_status = λ w. (ok tt, w);
}

abbrev up_then_down : List ServerStartupResult
up_then_down =
    record { kind = control; result = ok tt } ∷ record { kind = status; result = err "denied" } ∷ []

startup_steps_example :
    let (r, w') = wait_for_server_startup (written ℕ servers) up_then_down (0, []) in
    w'.1 ≡ expected_steps up_then_down × is_ok r ≡ both_up up_then_down
startup_steps_example = startup_steps servers up_then_down 0
