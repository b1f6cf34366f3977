-- ===== src/Ipc/Control/Replies.antt =====
-- What the control server of src/ipc.rs answers, and what it passes on.
use wardoff.Prelude.{
  ℕ, ◌+◌, ◌≤◌, Bool, true, false, ◌&&◌, ◌==◌, List, [], ◌∷◌, String, Result, ok, err, ◌≡◌,
  if◌then◌else◌,
}
use wardoff.Logger.Journal.{Attempt}
use wardoff.Policy.{IpcRequest, shutdown_server}
use wardoff.Ipc.Client.{newline}
use wardoff.Ipc.Control.{ControlCalls}

-- How far a reply has come: its payload is known, written, and written with its newline.
pub data Stage : Type 0 where
  no_reply payload_written line_written : Stage
  serialized : List ℕ → Stage

pub record Count (W : Type 0) : Type 0 where
  pub inner : W
  pub stage : Stage
  pub accepted : ℕ
  pub replies : ℕ
  pub lost : ℕ
  pub passed_on : ℕ
  pub only_commands : Bool

abbrev same : List ℕ → List ℕ → Bool
same [] [] = true
same (x ∷ xs) (y ∷ ys) = (x == y) && same xs ys
same _ _ = false

-- A write that does not continue the reply ends it.
abbrev advance : List ℕ → Stage → Stage
advance bs (serialized payload) = if same bs payload then payload_written else no_reply
advance bs payload_written = if same bs newline then line_written else no_reply
advance bs _ = no_reply

abbrev is_command : IpcRequest → Bool
is_command shutdown_server = false
is_command _ = true

module _ {W : Type 0} where
  abbrev inside : {A : Type 0} → (W → A × W) → Count W → A × Count W
  inside call w = let (a, w') = call w.inner in (a, record w { inner = w' })

  abbrev count_accepted : {A B : Type 0} → Result A B × Count W → Result A B × Count W
  count_accepted (ok a, w) = (ok a, record w { accepted = w.accepted + 1 })
  count_accepted (err e, w) = (err e, w)

  abbrev lose : Count W → Count W
  lose w = record w { stage = no_reply; lost = w.lost + 1 }

  abbrev on_json : Result (List ℕ) String × Count W → Result (List ℕ) String × Count W
  on_json (ok payload, w) = (ok payload, record w { stage = serialized payload })
  on_json (err e, w) = (err e, lose w)

  abbrev on_write : List ℕ → Result (Unit {0}) String × Count W → Result (Unit {0}) String × Count W
  on_write bs (ok _, w) = (ok tt, record w { stage = advance bs w.stage })
  on_write bs (err e, w) = (err e, elim w.stage [ no_reply ↦ w | _ ↦ lose w ])

  abbrev on_flush : Result (Unit {0}) String × Count W → Result (Unit {0}) String × Count W
  on_flush (ok _, w) = (
    ok tt,
    elim w.stage [
      | line_written ↦ record w { stage = no_reply; replies = w.replies + 1 }
      | _ ↦ record w { stage = no_reply }
    ],
  )
  on_flush (err e, w) = (err e, elim w.stage [ no_reply ↦ w | _ ↦ lose w ])

  -- The same calls, which also count the clients, the requests passed on, and the replies: one
  -- counts when its payload and its newline are written and flushed, and as lost at the call that
  -- fails.
  abbrev pub counted : ControlCalls W → ControlCalls (Count W)
  counted calls = record {
    current_control_pipe_path = inside calls.current_control_pipe_path;
    build_security = λ path. inside (calls.build_security path);
    create_instance = inside calls.create_instance;
    connect_client = λ handle w. count_accepted (inside (calls.connect_client handle) w);
    set_blocking = λ handle blocking. inside (calls.set_blocking handle blocking);
    reads = λ handle. inside (calls.reads handle);
    to_json = λ response w. on_json (inside (calls.to_json response) w);
    write_all = λ handle bs w. on_write bs (inside (calls.write_all handle bs) w);
    flush = λ handle w. on_flush (inside (calls.flush handle) w);
    send_pending = λ request w. inside (calls.send_pending request) (record w {
      passed_on = w.passed_on + 1;
      only_commands = w.only_commands && is_command request;
    });
    post_wake = inside calls.post_wake;
    recv = inside calls.recv;
  }

-- Every client that was accepted has had its reply or lost it, and no `ShutdownServer` was passed on.
abbrev Settled : {W : Type 0} → Count W → Type 0
Settled w = w.replies + w.lost ≡ w.accepted × w.only_commands ≡ true × w.passed_on ≤ w.accepted

-- One client is accepted and has no reply yet; nothing of it was passed on.
abbrev Owed : {W : Type 0} → Count W → Type 0
Owed w = w.replies + w.lost + 1 ≡ w.accepted × w.only_commands ≡ true × w.passed_on + 1 ≤ w.accepted

-- The same, with the request passed on.
abbrev PassedOn : {W : Type 0} → Count W → Type 0
PassedOn w = w.replies + w.lost + 1 ≡ w.accepted × w.only_commands ≡ true × w.passed_on ≤ w.accepted

module _ {W : Type 0} (calls : ControlCalls W) where
  -- A payload that is known, or a reply that is lost.
  abbrev Serialized : Attempt (Count W) (List ℕ) → Type 0
  Serialized (ok payload, env) = env.world.stage ≡ serialized payload × PassedOn env.world
  Serialized (err error, env) = Settled env.world

  -- An accepted client is owed a reply.
  Accepted : Attempt (Count W) ℕ → Type 0
  Accepted (ok handle, env) = Owed env.world
  Accepted (err error, env) = Settled env.world
